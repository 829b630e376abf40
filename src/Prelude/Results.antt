-- ===== src/Prelude/Results.antt =====
-- Go's `error` values: the reason that `apierrors` reads off an error through every `%w`, and its text.
use Prim.Native.Nat.{ℕ}
use Prim.Native.Char.{code}
use Prim.Native.String.{String}
use mathlib.Core.Path.{◌≡◌, refl}
use mathlib.Core.Logic.{◌⊎◌, inl, inr}
use mathlib.Core.Bool.{Bool, true, false}
use mathlib.Core.List.{List, [], ◌∷◌, ◌++◌}

-- A Go string is its bytes.
abbrev pub Bytes : Type 0
Bytes = List ℕ

-- The code points of a literal, which are its bytes when the literal is ASCII.
abbrev pub codes : String → Bytes
codes String.[] = []
codes (String.◌∷◌ c s) = code c ∷ codes s

pub data Reason : Type 0 where
  not_found already_exists conflict : Reason
  server_timeout service_unavailable timeout too_many_requests : Reason
  other_reason : Reason

pub record Error : Type 0 where
  pub reason : Reason
  pub text : Bytes

-- `fmt.Errorf("<text>")`
abbrev pub errorf : Bytes → Error
errorf t = record { reason = other_reason; text = t }

-- `fmt.Errorf("<prefix>: %w", err)`
abbrev pub wrap : Bytes → Error → Error
wrap prefix e = record e { text = prefix ++ codes ": " ++ e.text }

-- `apierrors.IsNotFound`
abbrev pub is_not_found : Error → Bool
is_not_found e = elim e.reason [ not_found ↦ true | _ ↦ false ]

pub data Result {ℓ} (A : Type ℓ) : Type ℓ where
  ok : A → Result A
  err : Error → Result A

pub Result-cases {ℓ} :
    {A : Type ℓ} (r : Result A) → ((a : A) × (r ≡ ok a)) ⊎ ((e : Error) × (r ≡ err e))
Result-cases (ok a) = inl (a, refl)
Result-cases (err e) = inr (e, refl)
