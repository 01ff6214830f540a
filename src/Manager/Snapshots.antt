-- ===== src/Manager/Snapshots.antt =====
-- Addictol/Source/Core/AdModuleDefender.cpp: the snapshot of the game's sections that is taken before
-- a module installs itself, and put back where the installation fails.
use addictol.Base.{
  Bool, true, false, Option, none, some, ◌&&◌, length, replicate, is_some, if◌then◌else◌,
}
use addictol.Manager.{Host, Manager, Sections, Defender}

abbrev pub empty_defender : Defender
empty_defender = record { code = none; rdata = none; rwdata = none; take = false; faulted = false }

-- All three buffers are there.
abbrev pub has_buffers : Defender → Bool
has_buffers d = is_some d.code && is_some d.rdata && is_some d.rwdata

unfoldable pub release : Defender → Defender
release d = record d { code = none; rdata = none; rwdata = none }

-- `make_unique` clears the buffers; where one is missing the three are let go.
unfoldable pub initialize : Bool → Sections → Defender → Defender × Bool
unfolding release
initialize allocated s d =
    if allocated
    then (
      record d {
        code = some (replicate (length s.code) 0);
        rdata = some (replicate (length s.rdata) 0);
        rwdata = some (replicate (length s.rwdata) 0);
      },
      true,
    )
    else (release d, false)

unfoldable pub take_snapshot : Sections → Defender → Defender × Bool
take_snapshot s d =
    if has_buffers d
    then (
      record d { code = some s.code; rdata = some s.rdata; rwdata = some s.rwdata; take = true },
      true,
    )
    else (d, false)

-- The bytes written over the sections, `none` where a buffer is null.
unfoldable pub saved : Defender → Option Sections
saved d = elim d.code [
  | none ↦ none
  | some c ↦ elim d.rdata [
    | none ↦ none
    | some r ↦ elim d.rwdata [
      | none ↦ none
      | some w ↦ some (record { code = c; rdata = r; rwdata = w })
    ]
  ]
]

module _ {World : Type 0} (host : Host World) where
  unfoldable pub restore_from_snapshot : Defender → World → Defender × World × Bool
  unfolding saved
  restore_from_snapshot d w =
      if d.take
      then elim (saved d) [
        | none ↦ (record d { faulted = true; take = false }, w, true)
        | some s ↦ (record d { take = false }, host.write_sections s w, true)
      ]
      else (d, w, false)

  -- The three calls as the manager makes them.
  unfoldable pub initialize_defender : Manager World → Manager World
  initialize_defender s = record s {
    defender = (initialize (host.buffers_allocated s.world) (host.sections s.world) s.defender).0;
  }

  unfoldable pub take_defender : Manager World → Manager World
  take_defender s = record s { defender = (take_snapshot (host.sections s.world) s.defender).0 }

  unfoldable pub restore_defender : Manager World → Manager World
  restore_defender s =
      let (d, w, done) = restore_from_snapshot s.defender s.world in
      record s { defender = d; world = w }

unfoldable pub release_defender : {World : Type 0} → Manager World → Manager World
release_defender s = record s { defender = release s.defender }
