-- ===== src/Laco/Stagger.antt =====
-- laco_doors.h: the pause between a chamber's two sides, and one side a tick.
use opta_gateway_mt.Base.{
  subst, if◌then◌else◌, is_past, ◌==◌, ◌&&◌, add32, not, append-nil, sym, ℕ, ◌+◌, ◌*◌, ◌/◌, ◌<◌,
  ◌≡◌, inl, inr, Bool, true, false, arith, refl, sub32, word, List, [], ◌∷◌, ◌++◌, ◌∙◌, Bool-cases,
  append_assoc,
}
use opta_gateway_mt.Shared.{PlcSnapshot}
use opta_gateway_mt.Laco.{
  verdict, write_b, write_a, settle, settle_ms, set_job, JobStep, Job, drive, Laco, stagger, Plc,
  Write, write_side, step_at, step, tick, report_abort, get_job, tell, stagger_ms,
}
use opta_gateway_mt.Laco.Jobs.{step-Keeps, IsSound}

-- One tick of the PLC thread: what the PLC takes, the clock, the snapshot.
pub record Beat (F : Type 0) : Type 0 where
  pub plc : Plc
  pub now : ℕ
  pub w : PlcSnapshot F

-- Every tick comes less than ten seconds after `origin`.
abbrev pub AllSoon : {F : Type 0} → ℕ → List (Beat F) → Type 0
AllSoon origin [] = Unit
AllSoon origin (b ∷ bs) = (b.now < word) × (sub32 b.now origin < stagger_ms) × AllSoon origin bs

abbrev pub AllOf : ℕ → List Write → Type 0
AllOf s [] = Unit
AllOf s (x ∷ xs) = (x.tag / 2 ≡ s) × AllOf s xs

abbrev pub put : ℕ → Bool → Bool → Write
put tag value taken = record { tag = tag; value = value; taken = taken }

-- The side whose turn it is.
abbrev pub side_due : JobStep → Job → ℕ
side_due write_b j = j.side_a + 1
side_due _ j = j.side_a

module _ {F : Type 0} where
  unfoldable pub ticks : List (Beat F) → Laco F → Laco F
  ticks [] l = l
  ticks (b ∷ bs) l = ticks bs (tick b.plc b.now b.w l).0

  rests :
      (plc : Plc) (now : ℕ) (w : PlcSnapshot F) (top wrote : Bool) (l : Laco F)
      → (get_job top l).active ≡ false
      → step plc now w top wrote l ≡ (l, wrote)
  unfolding step
  rests plc now w top wrote l h = rw h

  -- The writes that `m` has beyond `l` are all of side `s`.
  abbrev pub WroteOnly : ℕ → Laco F → Laco F → Type 0
  WroteOnly s l m = (new : List Write) × (m.writes ≡ l.writes ++ new) × AllOf s new

  write_side-WroteOnly :
      (plc : Plc) (now side : ℕ) (opening : Bool) (l : Laco F)
      → WroteOnly side l (write_side plc now side opening l).0
  unfolding write_side tell
  write_side-WroteOnly plc now side opening l = elim (Bool-cases (plc (2 * side) opening)) [
    | inr c ↦ rw c (put (2 * side) opening false ∷ [], ground arith, omega arith)
    | inl c ↦ elim (Bool-cases (plc (2 * side + 1) opening)) [
      | inl d ↦
          rw (c, d)
            (
              put (2 * side) opening true ∷ put (2 * side + 1) opening true ∷ [],
              append_assoc l.writes _ _,
              omega arith,
            )
      | inr d ↦
          rw (c, d)
            (
              put (2 * side) opening true
                  ∷ put (2 * side + 1) opening false
                  ∷ put (2 * side) (not opening) (plc (2 * side) (not opening))
                  ∷ [],
              ground (
                arith,
                append_assoc l.writes (put (2 * side) opening true ∷ [])
                    (put (2 * side + 1) opening false ∷ []),
                append_assoc l.writes
                    (put (2 * side) opening true ∷ put (2 * side + 1) opening false ∷ [])
                    (put (2 * side) (not opening) (plc (2 * side) (not opening)) ∷ []),
              ),
              omega arith,
            )
    ]
  ]

  set_job-writes : (top : Bool) (j : Job) (l : Laco F) → (set_job top j l).writes ≡ l.writes
  unfolding set_job
  set_job-writes true j l = refl
  set_job-writes false j l = refl

  drive-writes :
      (plc : Plc) (now : ℕ) (top : Bool) (side : ℕ) (next : JobStep) (j : Job) (l : Laco F)
      → (drive plc now top side next j l).0.writes ≡ (write_side plc now side j.opening l).0.writes
  unfolding drive
  drive-writes plc now top side next j l =
      elim (Bool-cases (write_side plc now side j.opening l).1) [
        | inl e ↦ rw e (set_job-writes top _ _)
        | inr e ↦ rw e (set_job-writes top _ _)
      ]

  WroteOnly-none : (s : ℕ) (l m : Laco F) → m.writes ≡ l.writes → WroteOnly s l m
  WroteOnly-none s l m e = ([], e ∙ sym (append-nil l.writes), tt)

  drive-WroteOnly :
      (plc : Plc) (now : ℕ) (top : Bool) (side : ℕ) (next : JobStep) (j : Job) (l : Laco F)
      → WroteOnly side l (drive plc now top side next j l).0
  drive-WroteOnly plc now top side next j l =
      let r = write_side-WroteOnly plc now side j.opening l in
      (r.0, drive-writes plc now top side next j l ∙ r.1, r.2)

  step_at-WroteOnly :
      (plc : Plc) (now : ℕ) (w : PlcSnapshot F) (top : Bool) (s : JobStep) (j : Job) (wrote : Bool)
      (l : Laco F)
      → WroteOnly (side_due s j) l (step_at plc now w top s j wrote l).0
  unfolding step_at tell
  step_at-WroteOnly plc now w top write_a j true l = WroteOnly-none j.side_a l l refl
  step_at-WroteOnly plc now w top write_a j false l =
      elim (Bool-cases (j.opening && not (w.action_word == 0))) [
        | inl e ↦ rw e (
            WroteOnly-none j.side_a l
              (set_job top (record j { active = false })
                (tell now "laco: cycle started, cancelled" l))
              (set_job-writes top (record j { active = false })
                (tell now "laco: cycle started, cancelled" l)))
        | inr e ↦ rw e (drive-WroteOnly plc now top j.side_a stagger j l)
      ]
  step_at-WroteOnly plc now w top stagger j wrote l =
      elim (Bool-cases (is_past now (add32 j.at_ms stagger_ms))) [
        | inl e ↦ rw e (
            WroteOnly-none j.side_a l (set_job top (record j { step = write_b }) l)
              (set_job-writes top (record j { step = write_b }) l))
        | inr e ↦ rw e (WroteOnly-none j.side_a l l refl)
      ]
  step_at-WroteOnly plc now w top write_b j true l = WroteOnly-none (j.side_a + 1) l l refl
  step_at-WroteOnly plc now w top write_b j false l =
      elim (Bool-cases (j.opening && not (w.action_word == 0))) [
        | inl e ↦ rw e (
            WroteOnly-none (j.side_a + 1) l
              (set_job top (record j { active = false })
                (tell now "laco: cycle started, cancelled" l))
              (set_job-writes top (record j { active = false })
                (tell now "laco: cycle started, cancelled" l)))
        | inr e ↦ rw e (drive-WroteOnly plc now top (j.side_a + 1) settle j l)
      ]
  step_at-WroteOnly plc now w top settle j wrote l =
      elim (Bool-cases (is_past now (add32 j.at_ms settle_ms))) [
        | inl e ↦ rw e (
            WroteOnly-none j.side_a l
              (tell now
                (verdict top j.opening j.side_a (w.door_state j.side_a)
                  (w.door_state (j.side_a + 1)))
                (set_job top (record j { active = false }) l))
              (set_job-writes top (record j { active = false }) l))
        | inr e ↦ rw e (WroteOnly-none j.side_a l l refl)
      ]

  step-WroteOnly :
      (plc : Plc) (now : ℕ) (w : PlcSnapshot F) (top wrote : Bool) (l : Laco F)
      → WroteOnly (side_due (get_job top l).step (get_job top l)) l (step plc now w top wrote l).0
  unfolding step
  step-WroteOnly plc now w top wrote l = elim (Bool-cases (get_job top l).active) [
    | inl e ↦ rw e (step_at-WroteOnly plc now w top (get_job top l).step (get_job top l) wrote l)
    | inr e ↦ rw e (WroteOnly-none (side_due (get_job top l).step (get_job top l)) l l refl)
  ]

  report_abort-rest :
      (now : ℕ) (l : Laco F)
      → ((report_abort now l).top ≡ l.top)
        × ((report_abort now l).bot ≡ l.bot)
        × ((report_abort now l).writes ≡ l.writes)
  unfolding report_abort tell
  report_abort-rest now l = ground arith

  abbrev pub due_side : Laco F → ℕ
  due_side l = if l.top.active then side_due l.top.step l.top else side_due l.bot.step l.bot

  due_top : (l : Laco F) → l.top.active ≡ true → side_due l.top.step l.top ≡ due_side l
  due_top l e = simp e

  due_bot : (l : Laco F) → l.top.active ≡ false → side_due l.bot.step l.bot ≡ due_side l
  due_bot l e = simp e

  tick_as :
      (plc : Plc) (now : ℕ) (w : PlcSnapshot F) (l : Laco F)
      → IsSound l
      → (tick plc now w l).0 ≡ (
          if l.top.active
          then (step plc now w true false (report_abort now l)).0
          else (step plc now w false false (report_abort now l)).0)
  unfolding tick
  tick_as plc now w l h =
      let m = report_abort now l in
      let m1 = step plc now w true false m in
      ground (
        arith,
        report_abort-rest now l,
        step-Keeps plc now w true false m,
        rests plc now w true false m,
        rests plc now w false m1.1 m1.0,
      )

  -- In one tick the gateway writes the clamps and door of one side at most: that of the chamber in
  -- motion whose turn it is. Never two sides, never two chambers.
  pub tick-WroteOnly :
      (plc : Plc) (now : ℕ) (w : PlcSnapshot F) (l : Laco F)
      → IsSound l
      → WroteOnly (due_side l) l (tick plc now w l).0
  tick-WroteOnly plc now w l h =
      let m = report_abort now l in
      let r = report_abort-rest now l in
      elim (Bool-cases l.top.active) [
        | inl e ↦
            let (new, eq, all) = step-WroteOnly plc now w true false m in
            (
              new,
              ground (arith, tick_as plc now w l h, report_abort-rest now l),
              subst (λ (k : ℕ). AllOf k new) (due_top l e)
                  (subst (λ (j : Job). AllOf (side_due j.step j) new) r.0 all),
            )
        | inr e ↦
            let (new, eq, all) = step-WroteOnly plc now w false false m in
            (
              new,
              ground (arith, tick_as plc now w l h, report_abort-rest now l),
              subst (λ (k : ℕ). AllOf k new) (due_bot l e)
                  (subst (λ (j : Job). AllOf (side_due j.step j) new) r.1 all),
            )
      ]
