-- ===== src/Commands/Gate.antt =====
-- plc_thread.h, `drainCommands`: what a command needs to touch the machine.
use opta_gateway_mt.Base.{
  not, subst, Bool-cases, arith, ◌∙◌, inr, ◌||◌, ◌&&◌, ◌⊎◌, inl, ◌∷◌, ◌≡◌, Bool, List, refl, [],
  false, true,
}
use opta_gateway_mt.Base.Floats.{Floats}
use opta_gateway_mt.Shared.{CmdTag, flow_reset_total, Cmd}
use opta_gateway_mt.Commands.{
  String, Thread, Answers, report, apply_tag, apply_command, is_bookkeeping, drain_one,
  drain_commands,
}

module _ (fl : Floats) where
  -- A reset of the water books is among the commands.
  abbrev pub has_reset : List (Cmd fl.F) → Bool
  has_reset [] = false
  has_reset (c ∷ cs) = is_bookkeeping c.tag || has_reset cs

  -- The machine was left alone, and so were the water books, unless `resets`.
  pub record IsIdle (resets : Bool) (s : Thread fl.F) (t : Thread fl.F) : Type 0 where
    pub same_manual : t.manual ≡ s.manual
    pub same_laco : t.laco ≡ s.laco
    pub same_clears : t.clear_due ≡ s.clear_due
    pub same_done : t.done ≡ s.done
    pub same_water : (resets ≡ true) ⊎ (t.water ≡ s.water)

  IsIdle-report :
      (resets : Bool) (text : String) (s : Thread fl.F) → IsIdle resets s (report text s)
  IsIdle-report resets text s = record {
    same_manual = refl;
    same_laco = refl;
    same_clears = refl;
    same_done = refl;
    same_water = inr refl;
  }

  IsIdle-trans :
      (a b : Bool) (s t u : Thread fl.F) → IsIdle a s t → IsIdle b t u → IsIdle (a || b) s u
  IsIdle-trans a b s t u x y = record {
    same_manual = y.same_manual ∙ x.same_manual;
    same_laco = y.same_laco ∙ x.same_laco;
    same_clears = y.same_clears ∙ x.same_clears;
    same_done = y.same_done ∙ x.same_done;
    same_water = elim x.same_water [
      | inl e ↦ inl (ground (arith, e))
      | inr e ↦ elim y.same_water [ inl f ↦ inl (ground (arith, f)) | inr f ↦ inr (f ∙ e) ]
    ];
  }

  bookkeeping_tag : (t : CmdTag) → is_bookkeeping t ≡ true → t ≡ flow_reset_total
  bookkeeping_tag t h = ground arith

  apply_tag-reset :
      (a : Answers fl.F) (on : Bool) (v : fl.F) (s : Thread fl.F)
      → IsIdle true s (apply_tag fl a flow_reset_total on v s)
  apply_tag-reset a on v s = record {
    same_manual = refl;
    same_laco = refl;
    same_clears = refl;
    same_done = refl;
    same_water = inl refl;
  }

  drain_one-IsIdle :
      (a : Answers fl.F) (allow enabled : Bool) (c : Cmd fl.F) (s : Thread fl.F)
      → allow && enabled ≡ false
      → IsIdle (allow && is_bookkeeping c.tag) s (drain_one fl a allow enabled c s)
  unfolding drain_one apply_command
  drain_one-IsIdle a false enabled c s h = IsIdle-report _ _ s
  drain_one-IsIdle a true true c s h = absurd (ground arith)
  drain_one-IsIdle a true false c s h = elim (Bool-cases (is_bookkeeping c.tag)) [
    | inl e ↦ elim (Bool-cases (a.connected s)) [
      | inl f ↦
          rw (e, f, bookkeeping_tag c.tag e)
            (apply_tag-reset a (not (fl.eq c.value (fl.lit 0 1))) c.value s)
      | inr f ↦ rw (e, f) (IsIdle-report _ _ s)
    ]
    | inr e ↦ rw e (IsIdle-report _ _ s)
  ]

  -- On the tick that finds the PLC away, or with the dashboard's control switched off, no command of
  -- the queue touches the manual outputs, the doors, the fault clears, or any tag of the PLC, and the
  -- water books are left alone too, save for a reset of them on a tick with the PLC.
  pub drain_commands-IsIdle :
      (a : Answers fl.F) (allow enabled : Bool) (cs : List (Cmd fl.F)) (s : Thread fl.F)
      → allow && enabled ≡ false
      → IsIdle (allow && has_reset cs) s (drain_commands fl a allow enabled cs s)
  unfolding drain_commands
  drain_commands-IsIdle a allow enabled [] s h = record {
    same_manual = refl;
    same_laco = refl;
    same_clears = refl;
    same_done = refl;
    same_water = inr refl;
  }
  drain_commands-IsIdle a allow enabled (c ∷ cs) s h =
      let t = drain_one fl a allow enabled c s in
      let u = drain_commands fl a allow enabled cs t in
      subst (λ b. IsIdle b s u) (ground arith)
        (IsIdle-trans (allow && is_bookkeeping c.tag) (allow && has_reset cs) s t u
          (drain_one-IsIdle a allow enabled c s h) (drain_commands-IsIdle a allow enabled cs t h))
