-- ===== src/Telemetry/Profile/Pins/Turns.antt =====
-- What operations may rely on through the steps of the controller.
use addictol.Base.{ℕ, ◌≡◌, refl, Bool, true, false}
use addictol.Telemetry.Profile.Pins.{
  Phase, pin_checked, inside, in_shard, in_shard_checked, admitting, counted, admitted, holding,
  Control, idle, closing, locked, seen_closed, seen_unpinned, checked, stamped, resetting, emptied,
  holds_mutexes, holds_shard, is_pinning, is_sampled,
}
use addictol.Telemetry.Profile.Pins.Moves.{Good}

pub close-Good : (o : Bool) (gen : ℕ) (p : Phase) → Good idle o gen p → Good closing false gen p
close-Good o gen (pin_checked g) h = (λ e. cc, λ e. cc)
close-Good o gen (inside g) h = h
close-Good o gen (in_shard g) h = h
close-Good o gen (in_shard_checked g) h = h
close-Good o gen (admitting g) h = (h.0, refl, λ e. refl)
close-Good o gen (counted g) h = h
close-Good o gen (admitted g) h = h
close-Good o gen (holding g) h = h
close-Good o gen _ h = tt

pub pass-Good :
    (o : Bool) (gen : ℕ) (p : Phase)
    → Good closing o gen p
    → holds_shard p ≡ false
    → Good idle o gen p
pass-Good o gen (pin_checked g) h e = (h.0, λ k. cc)
pass-Good o gen (inside g) h e = h
pass-Good o gen (in_shard g) h e = h
pass-Good o gen (in_shard_checked g) h e = h
pass-Good o gen (admitting g) h e = cc
pass-Good o gen (counted g) h e = h
pass-Good o gen (admitted g) h e = h
pass-Good o gen (holding g) h e = h
pass-Good o gen _ h e = tt

pub lock-Good :
    (o : Bool) (gen : ℕ) (p : Phase)
    → Good idle o gen p
    → holds_shard p ≡ false
    → Good locked o gen p
lock-Good o gen (pin_checked g) h e = (h.0, λ k. cc)
lock-Good o gen (inside g) h e = h
lock-Good o gen (in_shard g) h e = cc
lock-Good o gen (in_shard_checked g) h e = cc
lock-Good o gen (admitting g) h e = cc
lock-Good o gen (counted g) h e = cc
lock-Good o gen (admitted g) h e = h
lock-Good o gen (holding g) h e = h
lock-Good o gen _ h e = tt

pub closed-Good : (gen : ℕ) (p : Phase) → Good locked false gen p → Good seen_closed false gen p
closed-Good gen (pin_checked g) h = (h.0, λ k. cc)
closed-Good gen (inside g) h = h
closed-Good gen (in_shard g) h = cc
closed-Good gen (in_shard_checked g) h = cc
closed-Good gen (admitting g) h = cc
closed-Good gen (counted g) h = cc
closed-Good gen (admitted g) h = h
closed-Good gen (holding g) h = h
closed-Good gen _ h = tt

pub unpinned-Good :
    (gen : ℕ) (p : Phase)
    → Good seen_closed false gen p
    → is_pinning p ≡ false
    → Good seen_unpinned false gen p
unpinned-Good gen (pin_checked g) h e = cc
unpinned-Good gen (inside g) h e = cc
unpinned-Good gen (in_shard g) h e = cc
unpinned-Good gen (in_shard_checked g) h e = cc
unpinned-Good gen (admitting g) h e = cc
unpinned-Good gen (counted g) h e = cc
unpinned-Good gen (admitted g) h e = cc
unpinned-Good gen (holding g) h e = h
unpinned-Good gen _ h e = tt

pub unsampled-Good :
    (gen : ℕ) (p : Phase)
    → Good seen_unpinned false gen p
    → is_sampled p ≡ false
    → Good checked false gen p
unsampled-Good gen (pin_checked g) h e = (h.0, λ k. cc)
unsampled-Good gen (inside g) h e = cc
unsampled-Good gen (in_shard g) h e = cc
unsampled-Good gen (in_shard_checked g) h e = cc
unsampled-Good gen (admitting g) h e = cc
unsampled-Good gen (counted g) h e = cc
unsampled-Good gen (admitted g) h e = cc
unsampled-Good gen (holding g) h e = cc
unsampled-Good gen _ h e = tt

-- While the controller holds the mutexes, only tests of the generation are relied on.
pub stamp-Good : (gen gen' : ℕ) (p : Phase) → Good checked false gen p → Good stamped false gen' p
stamp-Good gen gen' (pin_checked g) h = (λ e. cc, λ e. cc)
stamp-Good gen gen' (inside g) h = cc
stamp-Good gen gen' (in_shard g) h = cc
stamp-Good gen gen' (in_shard_checked g) h = cc
stamp-Good gen gen' (admitting g) h = cc
stamp-Good gen gen' (counted g) h = cc
stamp-Good gen gen' (admitted g) h = cc
stamp-Good gen gen' (holding g) h = cc
stamp-Good gen gen' _ h = tt

pub recheck-Good :
    (gen : ℕ) (p : Phase)
    → Good stamped false gen p
    → is_pinning p ≡ false
    → Good resetting false gen p
recheck-Good gen (pin_checked g) h e = cc
recheck-Good gen (inside g) h e = cc
recheck-Good gen (in_shard g) h e = cc
recheck-Good gen (in_shard_checked g) h e = cc
recheck-Good gen (admitting g) h e = cc
recheck-Good gen (counted g) h e = cc
recheck-Good gen (admitted g) h e = cc
recheck-Good gen (holding g) h e = cc
recheck-Good gen _ h e = tt

-- The mutexes are released without a start.
pub release-Good :
    (k : Control) (o : Bool) (gen : ℕ) (p : Phase)
    → holds_mutexes k ≡ true
    → Good k o gen p
    → Good idle o gen p
release-Good k o gen (pin_checked g) l h = (h.0, λ e. cc)
release-Good k o gen (inside g) l h = (h.0, refl)
release-Good k o gen (in_shard g) l h = (h.0, refl)
release-Good k o gen (in_shard_checked g) l h = (h.0, refl)
release-Good k o gen (admitting g) l h = cc
release-Good k o gen (counted g) l h = (h.0, refl)
release-Good k o gen (admitted g) l h = (h.0, refl)
release-Good k o gen (holding g) l h = (h.0, refl)
release-Good k o gen _ l h = tt

pub reset-Good : (gen : ℕ) (p : Phase) → Good resetting false gen p → Good emptied false gen p
reset-Good gen (pin_checked g) h = (λ e. cc, λ e. h.1 refl)
reset-Good gen (inside g) h = cc
reset-Good gen (in_shard g) h = cc
reset-Good gen (in_shard_checked g) h = cc
reset-Good gen (admitting g) h = cc
reset-Good gen (counted g) h = cc
reset-Good gen (admitted g) h = cc
reset-Good gen (holding g) h = cc
reset-Good gen _ h = tt

pub open-Good : (gen : ℕ) (p : Phase) → Good emptied false gen p → Good idle true gen p
open-Good gen (pin_checked g) h = (λ e. h.1 refl, λ e. cc)
open-Good gen (inside g) h = cc
open-Good gen (in_shard g) h = cc
open-Good gen (in_shard_checked g) h = cc
open-Good gen (admitting g) h = cc
open-Good gen (counted g) h = cc
open-Good gen (admitted g) h = cc
open-Good gen (holding g) h = cc
open-Good gen _ h = tt

pub reset-unsampled : (gen : ℕ) (p : Phase) → Good resetting false gen p → is_sampled p ≡ false
reset-unsampled gen (counted g) h = cc
reset-unsampled gen (admitted g) h = cc
reset-unsampled gen (holding g) h = cc
reset-unsampled gen _ h = refl
