-- ===== src/Cli/Create/Selector.antt =====
-- internal/cli/create.go: `parseSelector` on printed labels.
use kluster_one.Prelude.{
  ℕ, suc, ◌≡◌, refl, ◌∙◌, ap, sym, false, List, [], ◌∷◌, ◌++◌, map, none, Bytes, codes, arith, All,
  length, drop, take-append, append_assoc, append-nil,
}
use kluster_one.Prelude.Strings.{join, lookup, insert}
use kluster_one.Prelude.Trim.{IsPrintable, trim_space_printable}
use kluster_one.Prelude.Split.{IsOther, split, split-join, index_byte-append}
use kluster_one.Prelude.Spaces.{trim_space}
use kluster_one.Cli.Args.{is_empty}
use kluster_one.Cli.Create.{add_pair, selector_loop, parse_selector}

-- Printable ASCII without spaces and commas, as node names are, and not empty.
abbrev pub IsNodeName : Bytes → Type 0
IsNodeName s = (is_empty s ≡ false) × All IsPrintable s × All (IsOther b',') s

pub join-nonempty :
    (n : Bytes) (ns : List Bytes) (sep : Bytes)
    → is_empty n ≡ false
    → is_empty (join (n ∷ ns) sep) ≡ false
unfolding join
join-nonempty [] ns sep h = absurd (ground arith)
join-nonempty (c ∷ n) [] sep h = refl
join-nonempty (c ∷ n) (m ∷ ns) sep h = refl

-- `k=v`
abbrev pub print_pair : Bytes × Bytes → Bytes
print_pair (k, v) = k ++ b'=' ∷ v

-- A key is as a name, without an equals sign; a value may be empty and have equals signs.
abbrev pub IsPair : Bytes × Bytes → Type 0
IsPair (k, v) = IsNodeName k × All (IsOther b'=') k × All IsPrintable v × All (IsOther b',') v

-- No key of the second list stands in the first one or twice.
abbrev pub NewKeys : List (Bytes × Bytes) → List (Bytes × Bytes) → Type 0
NewKeys out [] = Unit
NewKeys out ((k, v) ∷ ps) = (lookup k out ≡ none) × NewKeys (out ++ (k, v) ∷ []) ps

insert_new :
    (k v : Bytes) (m : List (Bytes × Bytes)) → lookup k m ≡ none → insert k v m ≡ m ++ (k, v) ∷ []
unfolding lookup insert
insert_new k v [] h = refl
insert_new k v ((j, u) ∷ m) h = ground (arith, insert_new k v m)

All-append_lem :
    (P : ℕ → Type 0) (s t : Bytes) (c : ℕ) → All P s → P c → All P t → All P (s ++ c ∷ t)
All-append_lem P [] t c hs hc ht = (hc, ht)
All-append_lem P (x ∷ s) t c (hx, hs) hc ht = (hx, All-append_lem P s t c hs hc ht)

drop-append : (s t : Bytes) (c : ℕ) → drop (suc (length s)) (s ++ c ∷ t) ≡ t
drop-append [] t c = refl
drop-append (x ∷ s) t c = drop-append s t c

add_pair_lem :
    (k v : Bytes) (out : List (Bytes × Bytes))
    → IsPair (k, v)
    → add_pair (print_pair (k, v)) out ≡ insert k v out
unfolding add_pair
add_pair_lem [] v out ((some_byte, _, _), _, _, _) = absurd (ground arith)
add_pair_lem (c ∷ k) v out ((_, printable, _), no_equals, value, _) =
    rw
      (
        add_pair,
        index_byte-append (c ∷ k) v b'=' no_equals,
        take-append (c ∷ k) (b'=' ∷ v),
        trim_space_printable (c ∷ k) printable,
      )
      (ap (λ t. insert (c ∷ k) (trim_space t) out) (drop-append (c ∷ k) v b'=')
        ∙ ap (λ t. insert (c ∷ k) t out) (trim_space_printable v value))

print_pair-IsPrintable : (k v : Bytes) → IsPair (k, v) → All IsPrintable (print_pair (k, v))
print_pair-IsPrintable k v ((_, printable, _), _, value, _) =
    All-append_lem IsPrintable k v b'=' printable refl value

pair_comma_free : (k v : Bytes) → IsPair (k, v) → All (IsOther b',') (print_pair (k, v))
pair_comma_free k v ((_, _, no_comma), _, _, no_comma') =
    All-append_lem (IsOther b',') k v b'=' no_comma refl no_comma'

pub pair-nonempty : (k v : Bytes) → is_empty (print_pair (k, v)) ≡ false
pair-nonempty [] v = refl
pair-nonempty (c ∷ k) v = refl

selector_loop_lem :
    (ps out : List (Bytes × Bytes))
    → All IsPair ps
    → NewKeys out ps
    → selector_loop (map print_pair ps) out ≡ out ++ ps
unfolding selector_loop
selector_loop_lem [] out h new = sym (append-nil out)
selector_loop_lem ((k, v) ∷ ps) out (hp, h) (absent, new) =
    rw
      (
        selector_loop,
        trim_space_printable (print_pair (k, v)) (print_pair-IsPrintable k v hp),
        pair-nonempty k v,
        add_pair_lem k v out hp,
        insert_new k v out absent,
      )
      (selector_loop_lem ps (out ++ (k, v) ∷ []) h new ∙ append_assoc out ((k, v) ∷ []) ps)

pairs_comma_free :
    (ps : List (Bytes × Bytes)) → All IsPair ps → All (All (IsOther b',')) (map print_pair ps)
pairs_comma_free [] h = tt
pairs_comma_free ((k, v) ∷ ps) (hp, h) = (pair_comma_free k v hp, pairs_comma_free ps h)

-- `parseSelector` reads a printed selector back: of labels with distinct keys, which are printable ASCII
-- without spaces, commas and, in the keys, equals signs, the text "k=v,k=v,..." is parsed to these labels.
pub parse_selector-join :
    (ps : List (Bytes × Bytes))
    → All IsPair ps
    → NewKeys [] ps
    → parse_selector (join (map print_pair ps) (codes ",")) ≡ ps
unfolding parse_selector
parse_selector-join [] h new = unfold join split selector_loop in unfold trim_space in refl
parse_selector-join ((k, v) ∷ ps) h new =
    rw
      (
        parse_selector,
        split-join (print_pair (k, v)) (map print_pair ps) b',' (pairs_comma_free ((k, v) ∷ ps) h),
      )
      (selector_loop_lem ((k, v) ∷ ps) [] h new)
