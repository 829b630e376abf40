-- ===== src/Cli/Commands/Refine.antt =====
-- internal/cli/attach_run.go: the commands against an abstract machine, which sees of a resource whether
-- it is paused, with which reason, and the script.
use kluster_one.Prelude.{
  ◌≡◌, refl, ◌∙◌, ap, sym, inl, inr, Bool, true, false, List, [], ◌∷◌, Option, none, some, Bytes,
  Error, if◌then◌else◌, arith, ltb, length, Option-cases, All, ◌⊎◌,
}
use kluster_one.Api.{NodeMaintenance, ScriptSpec}
use kluster_one.Kube.{Kube}
use kluster_one.Cli.Args.{is_empty}
use kluster_one.Cli.Plugin.{Plugin}
use kluster_one.Cli.Commands.Merge.{PatchLaws, Merged, rest_of, merge_annotations, remove}
use kluster_one.Cli.Commands.Stores.{PausedAs}
use kluster_one.Cli.Commands.Whole.{pause-PausedAs, resume-PausedAs, attach-Merged}
use kluster_one.Cli.Commands.{
  inline_of, current_reason, has_script, pause, resume, attach, attach_patch, marshal_patch,
  pause_reason_annotation, max_inline_script_bytes,
}

pub data Command : Type 0 where
  pause_with : Bytes → Command
  run : Command
  attach_script : Bytes → Command

pub record View : Type 0 where
  pub paused : Bool
  pub reason : Bytes
  pub body : Bytes

unfoldable pub view : NodeMaintenance → View
view nm = record { paused = nm.spec.paused; reason = current_reason nm; body = inline_of nm }

-- What a command does to the view; `none` if it is refused.
unfoldable pub effect : Command → View → Option View
effect (pause_with reason) v = some (record v { paused = true; reason = reason })
effect run v = if is_empty v.body then none else some (record v { paused = false; reason = [] })
effect (attach_script body) v =
    if ltb max_inline_script_bytes (length body) then none else some (record v { body = body })

unfoldable pub effects : List Command → View → Option View
unfolding effect
effects [] v = some v
effects (c ∷ cs) v = elim (effect c v) [ none ↦ none | some v' ↦ effects cs v' ]

-- The script without its text.
abbrev frame : ScriptSpec → ScriptSpec
frame s = record s { inline = [] }

-- The commands leave alone what they do not name: the status, the name, every other field of the
-- specification and of a script that is there, and every other annotation.
pub record SameRun (nm nm' : NodeMaintenance) : Type 0 where
  pub rest : rest_of nm'.spec ≡ rest_of nm.spec
  pub script :
      (s : ScriptSpec)
      → nm.spec.script ≡ some s
      → (s' : ScriptSpec) × (nm'.spec.script ≡ some s') × (frame s' ≡ frame s)
  pub others :
      remove pause_reason_annotation nm'.meta.annotations
      ≡ remove pause_reason_annotation nm.meta.annotations
  pub status : nm'.status ≡ nm.status
  pub name : nm'.meta.name ≡ nm.meta.name

SameRun-refl : (nm : NodeMaintenance) → SameRun nm nm
SameRun-refl nm = record {
  rest = refl;
  script = λ s here. (s, here, refl);
  others = refl;
  status = refl;
  name = refl;
}

SameRun-trans : (a b c : NodeMaintenance) → SameRun a b → SameRun b c → SameRun a c
SameRun-trans a b c s t = record {
  rest = t.rest ∙ s.rest;
  script = λ x here.
      let (y, there, same) = s.script x here in
      let (z, there', same') = t.script y there in (z, there', same' ∙ same);
  others = t.others ∙ s.others;
  status = t.status ∙ s.status;
  name = t.name ∙ s.name;
}

view_of :
    (nm : NodeMaintenance) (v : View)
    → nm.spec.paused ≡ v.paused
    → current_reason nm ≡ v.reason
    → inline_of nm ≡ v.body
    → view nm ≡ v
unfolding view
view_of nm v p r b = cc (p, r, b)

module _ (K : Kube) (P : Plugin K) where
  open K use {World}

  -- The texts of the command are such that package encoding/json leaves them as they are, as it does any
  -- valid UTF-8.
  abbrev pub Carried : Command → Type 0
  Carried (pause_with reason) = P.json_text reason ≡ reason
  Carried run = Unit
  Carried (attach_script body) = P.json_text body ≡ body

  unfoldable pub command : Bytes → Command → World → Option Error × World
  command name (pause_with reason) w = pause K P name reason w
  command name run w = resume K P name w
  command name (attach_script body) w = attach K P name body w

  -- The commands one after another, up to the first error.
  unfoldable pub commands : Bytes → List Command → World → Option Error × World
  commands name [] w = (none, w)
  commands name (c ∷ cs) w =
      let (e, w') = command name c w in
      let rest = commands name cs w' in elim e [ some e ↦ (some e, w') | none ↦ rest ]

  module _ (laws : PatchLaws K P) where
    open laws.resource use {stored}

    -- The world stores a resource that shows the view.
    abbrev pub Reaches : NodeMaintenance → Option View → Bytes → World → Type 0
    Reaches nm v name w =
        (nm' : NodeMaintenance) × (stored w name ≡ some nm')
        × (v ≡ some (view nm'))
        × SameRun nm nm'

    paused_view :
        (paused : Bool) (reason : Bytes) (nm nm' : NodeMaintenance)
        → (reason ≡ []) ⊎ (P.json_text reason ≡ reason)
        → PausedAs P.json_text paused reason nm nm'
        → (view nm' ≡ record (view nm) { paused = paused; reason = reason }) × SameRun nm nm'
    unfolding view inline_of
    paused_view paused reason nm nm' carried so = (
      view_of nm' _ so.paused_is (so.reason_is carried)
          (ap (λ s. elim s [ none ↦ [] | some x ↦ x.inline ]) so.script),
      record {
        rest = so.rest;
        script = λ s here. (s, so.script ∙ here, refl);
        others = so.others;
        status = so.status;
        name = so.name;
      },
    )

    attached_view :
        (body : Bytes) (nm nm' : NodeMaintenance)
        → P.json_text body ≡ body
        → Merged (marshal_patch K P (attach_patch body)) nm nm'
        → (view nm' ≡ record (view nm) { body = body }) × SameRun nm nm'
    unfolding view attach_patch marshal_patch current_reason merge_annotations
    attached_view body nm nm' carried m = (
      view_of nm' _ m.paused (rw m.annotations refl) (m.inline ∙ carried),
      record {
        rest = m.rest;
        script = λ s here. (_, m.rewritten s (P.json_text body) here refl, refl);
        others = ap (remove pause_reason_annotation) m.annotations;
        status = m.status;
        name = m.name;
      },
    )

    command_refines :
        (c : Command) (name : Bytes) (w : World) (nm : NodeMaintenance)
        → Carried c
        → stored w name ≡ some nm
        → (command name c w).0 ≡ none
        → Reaches nm (effect c (view nm)) name (command name c w).1
    unfolding command effect
    command_refines (pause_with reason) name w nm carried h fine =
        let (nm', there, so) = pause-PausedAs K P laws name reason w nm h fine in
        let (seen, same) = paused_view true reason nm nm' (inr carried) so in
        (nm', there, ap some (sym seen), same)
    command_refines run name w nm carried h fine =
        let (scripted, (nm', there, so)) = resume-PausedAs K P laws name w nm h fine in
        let (seen, same) = paused_view false [] nm nm' (inl refl) so in
        let body : is_empty (inline_of nm) ≡ false = unfold has_script in ground arith in
        (nm', there, unfold view in rw body (ap some (sym seen)), same)
    command_refines (attach_script body) name w nm carried h fine =
        let (fits, (nm', there, so)) = attach-Merged K P laws name body w nm h fine in
        let (seen, same) = attached_view body nm nm' carried so in
        (nm', there, rw fits (ap some (sym seen)), same)

    -- The commands implement the abstract machine. Take a stored resource, and let pauses, runs and
    -- attachments follow each other, all of them returning without an error, on a server that merges
    -- patches as documented, with reasons and scripts that encoding/json leaves as they are. Then the machine
    -- refuses none of them, and the resource that is stored at the end shows exactly the machine's state. Its
    -- name, its status, the annotations but the reason, and the specification but the pause and the script
    -- are as they were, and so is all but the text of a script that was there.
    pub commands_refine :
        (cs : List Command) (name : Bytes) (w : World) (nm : NodeMaintenance)
        → All Carried cs
        → stored w name ≡ some nm
        → (commands name cs w).0 ≡ none
        → Reaches nm (effects cs (view nm)) name (commands name cs w).1
    unfolding commands effects
    commands_refine [] name w nm carried h fine = (nm, h, refl, SameRun-refl nm)
    commands_refine (c ∷ cs) name w nm (now, later) h fine =
        elim (Option-cases (command name c w).0) [
          | inr (e, failing) ↦ absurd (ground (arith, failing))
          | inl went ↦
              let (nm₁, there, seen, same) = command_refines c name w nm now h went in
              let (nm₂, there₂, seen₂, same₂) =
                commands_refine cs name (command name c w).1 nm₁ later there
                  (rw (went, commands) at fine) in
              (
                nm₂,
                rw (commands, went) there₂,
                rw (effects, seen) seen₂,
                SameRun-trans nm nm₁ nm₂ same same₂,
              )
        ]
