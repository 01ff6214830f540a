-- ===== src/Manager/Restore.antt =====
-- The defender around an installation.
use addictol.Base.{
  if_both, ℕ, ◌≡◌, refl, sym, ap, ◌∙◌, subst, Bool, true, false, Option, none, some, [], ◌∷◌, arith,
  if◌then◌else◌,
}
use addictol.Outcome.{ModuleOutcome, installed, failed_install}
use addictol.Manager.{
  Module, Message, Host, Manager, ModuleMap, Sections, Defender, k_load, clear_skip, record_outcome,
  record_at,
}
use addictol.Manager.Snapshots.{
  has_buffers, initialize, take_snapshot, saved, restore_from_snapshot, initialize_defender,
  take_defender, restore_defender, release_defender, release,
}
use addictol.Manager.Runs.{
  install_one, install_loop, install_load_all, safe_install_mod, if_defended, succeeded, refusal,
}

-- The buffers and the image of a session.
abbrev image : {World : Type 0} → Manager World → Defender × World
image s = (s.defender, s.world)

image-record_outcome :
    {World : Type 0} (s : Manager World) (m : Module) (stage : ℕ) (o : ModuleOutcome)
    → image (record_outcome s m stage o) ≡ image s
unfolding record_outcome record_at
image-record_outcome s m stage o = ground arith

saved-take_snapshot :
    (s : Sections) (d : Defender)
    → has_buffers d ≡ true
    → (saved (take_snapshot s d).0 ≡ some s) × ((take_snapshot s d).0.take ≡ true)
unfolding saved take_snapshot
saved-take_snapshot s d h = ground arith

module _ {World : Type 0} (host : Host World) where
  -- What is written to the sections is read back.
  abbrev pub WritesSections : Type 0
  WritesSections = (s : Sections) (w : World) → host.sections (host.write_sections s w) ≡ s

  restore-writes :
      (u : Manager World) (saved_sections : Sections)
      → u.defender.take ≡ true
      → saved u.defender ≡ some saved_sections
      → ((restore_defender host u).world ≡ host.write_sections saved_sections u.world)
        × ((restore_defender host u).defender.faulted ≡ u.defender.faulted)
        × (has_buffers (restore_defender host u).defender ≡ has_buffers u.defender)
  unfolding restore_defender restore_from_snapshot
  restore-writes u saved_sections h k = rw (h, restore_defender) (rw k (refl, refl, refl))

  failed_run :
      (s : Manager World) (m : Module) (msg : Option Message) (stage : ℕ)
      → m.process_defender ≡ true
      → succeeded (host.do_install m msg s.world).0.returned ≡ false
      → (u : Manager World) × (u.defender ≡ (take_snapshot (host.sections s.world) s.defender).0)
        × (install_one host s m msg stage ≡ restore_defender host u)
  unfolding install_one
  failed_run s m msg stage defended failed =
      let attempt : Bool → Bool × Manager World =
        λ b. safe_install_mod host (clear_skip (if b then take_defender host s else s) m) m msg in
      let noted : Bool → Manager World =
        λ b. record_outcome (attempt b).1 m stage (refusal (attempt b).1 m failed_install) in
      let by_defender : Bool → Manager World = λ b.
        if (attempt b).0
        then record_outcome (attempt b).1 m stage installed
        else if b
        then restore_defender host (noted b)
        else noted b in
      let by_answer : Bool → Manager World = λ c.
        if c
        then record_outcome (attempt true).1 m stage installed
        else restore_defender host (noted true) in
      (
        noted true,
        ap (λ (p : Defender × World). p.0)
            (image-record_outcome (attempt true).1 m stage
              (refusal (attempt true).1 m failed_install)),
        ap by_defender defended ∙ ap by_answer failed,
      )

  -- Where the installation of a defended module fails, by its answer or by an exception, and the
  -- defender has its buffers, the sections of the image are again what they were before it,
  -- whatever the installation wrote, provided that what is written to the sections is read back.
  pub install_one_restores :
      (s : Manager World) (m : Module) (msg : Option Message) (stage : ℕ)
      → WritesSections
      → m.process_defender ≡ true
      → has_buffers s.defender ≡ true
      → succeeded (host.do_install m msg s.world).0.returned ≡ false
      → host.sections (install_one host s m msg stage).world ≡ host.sections s.world
  install_one_restores s m msg stage writes defended buffers failed =
      let (u, same, e) = failed_run s m msg stage defended failed in
      let (kept, taken) = saved-take_snapshot (host.sections s.world) s.defender buffers in
      let r =
        restore-writes u (host.sections s.world) (ap (λ (d : Defender). d.take) same ∙ taken)
          (ap saved same ∙ kept) in
      rw e (rw r.0 (writes (host.sections s.world) u.world))

  -- All buffers are there, and none was read while it was not.
  abbrev IsReady : Manager World → Type 0
  IsReady u = (has_buffers u.defender ≡ true) × (u.defender.faulted ≡ false)

  take_defender-IsReady : (u : Manager World) → IsReady u → IsReady (take_defender host u)
  unfolding take_defender take_snapshot
  take_defender-IsReady u q = ground arith

  restore_defender-IsReady : (u : Manager World) → IsReady u → IsReady (restore_defender host u)
  unfolding restore_defender restore_from_snapshot saved
  restore_defender-IsReady u q = ground arith

  record_outcome-IsReady :
      (u : Manager World) (m : Module) (stage : ℕ) (o : ModuleOutcome)
      → IsReady u
      → IsReady (record_outcome u m stage o)
  record_outcome-IsReady u m stage o q =
      subst (λ (p : Defender × World). (has_buffers p.0 ≡ true) × (p.0.faulted ≡ false))
        (sym (image-record_outcome u m stage o)) q

  install_one-IsReady :
      (s : Manager World) (m : Module) (msg : Option Message) (stage : ℕ)
      → IsReady s
      → IsReady (install_one host s m msg stage)
  unfolding install_one
  install_one-IsReady s m msg stage q =
      let taken : IsReady (if_defended host m (take_defender host) s) =
        if_both IsReady m.process_defender _ _ (take_defender-IsReady s q) q in
      let (done, t) =
        safe_install_mod host (clear_skip (if_defended host m (take_defender host) s) m) m msg in
      let noted : IsReady (record_outcome t m stage (refusal t m failed_install)) =
        record_outcome-IsReady t m stage (refusal t m failed_install) taken in
      if_both IsReady done _ _ (record_outcome-IsReady t m stage installed taken) (
        if_both IsReady m.process_defender _ _
          (restore_defender-IsReady (record_outcome t m stage (refusal t m failed_install)) noted)
          noted)

  install_loop-IsReady :
      (s : Manager World) (modules : ModuleMap) (msg : Option Message) (stage : ℕ)
      → IsReady s
      → IsReady (install_loop host s modules msg stage)
  unfolding install_loop
  install_loop-IsReady s [] msg stage q = q
  install_loop-IsReady s ((name, m) ∷ rest) msg stage q =
      install_loop-IsReady (install_one host s m msg stage) rest msg stage
        (install_one-IsReady s m msg stage q)

  -- If the defender's buffers are allocated and none was read while null before, InstallLoadAll
  -- copies from no null buffer, whatever the modules do, and holds no complete set of buffers when
  -- it returns.
  pub install_load_all_copies :
      (s : Manager World)
      → host.buffers_allocated s.world ≡ true
      → s.defender.faulted ≡ false
      → ((install_load_all host s).defender.faulted ≡ false)
        × (has_buffers (install_load_all host s).defender ≡ false)
  unfolding install_load_all release_defender release initialize_defender
  install_load_all_copies s allocated clean =
      let start : IsReady (initialize_defender host s) =
        unfold initialize in rw allocated (refl, clean) in
      ((install_loop-IsReady (initialize_defender host s) s.modules none k_load start).1, refl)
