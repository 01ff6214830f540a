-- ===== src/Zlib/Owned/Tests.antt =====
-- Two owned streams over a decoder that only counts its calls, and the theorems at them.
use addictol.Base.{ℕ, ◌+◌, ◌≡◌, ◌⊎◌, refl, true, false, none, some, ◌==◌, arith, if◌then◌else◌}
use addictol.Base.Int.{ℤ, pos}
use addictol.Zlib.{Stream, Memory, inflate_ok, inflate_stream_error, has_zlib_header, span}
use addictol.Zlib.Mirror.{new_mirror}
use addictol.Zlib.Mirror.Tests.{sums, stream, memory}
use addictol.Zlib.Owned.{
  undecided, streaming, whole, done, no_reason, success, Decoder, WholeDecoder, OwnedState,
  choose_policy, take_whole, after_whole, wrong_format,
}
use addictol.Zlib.Owned.Entries.{World, Instance, tagged, untagged, find_state}
use addictol.Zlib.Owned.Controls.{reset_request, copy_request, serve}
use addictol.Zlib.Owned.Policy.{IsWhole, IsFallback, choose_policy_cases}
use addictol.Zlib.Owned.Isolation.{serve_unowned, serve_keeps_others}

abbrev count : ℕ → ℤ × ℕ
count d = (inflate_ok, d + 1)

abbrev counting : Decoder ℕ
counting = record {
  capabilities = record {
    copy = true;
    set_dictionary = true;
    sync = true;
    prime = true;
    mark = true;
    get_header = true;
    undermine = true;
    reset_keep = true;
    sync_point = true;
  };
  init = λ bits. (inflate_ok, 0);
  inflate = λ flush s mem d. (inflate_ok, s, mem, d + 1);
  reset = count;
  reset2 = λ bits d. count d;
  end = λ d. inflate_ok;
  has_pending_output = λ d. false;
  copy = count;
  set_dictionary = λ bytes d. count d;
  sync = λ s mem d. (inflate_ok, s, mem, d + 1);
  prime = λ bits value d. count d;
  mark = λ d. inflate_ok;
  get_header = λ header d. count d;
  undermine = λ allow d. count d;
  reset_keep = count;
  sync_point = λ d. inflate_ok;
}

-- It consumes six bytes and produces two.
abbrev at_once : WholeDecoder
at_once = some (λ input size output room mem.
    (record { status = success; consumed = 6; produced = 2; codec_result = 0 }, mem))

abbrev instance_of : Instance ℕ
instance_of = record { identity = 3; sums = sums; decoder = counting; whole = at_once }

abbrev owned_by : ℕ → OwnedState ℕ
owned_by a = record {
  owner = a;
  implementation = 3;
  window_bits = pos 15;
  policy = undecided;
  outcome_policy = streaming;
  fallback_reason = no_reason;
  mirror = new_mirror;
  decoder = 0;
  decoder_live = true;
}

abbrev finished : OwnedState ℕ
finished = record (owned_by 1) { policy = done; outcome_policy = whole }

-- The stream at 1 has its state at 7, that at 2 has it at 8.
abbrev world : World ℕ
world = record {
  streams = λ a. if a == 2 then record stream { state = 8 } else stream;
  heap = λ p. if p == 7 then tagged finished else if p == 8 then tagged (owned_by 2) else untagged;
  memory = memory;
}

finished_found : find_state world 3 1 ≡ some finished
unfolding find_state
finished_found = refl

other_found : find_state world 3 2 ≡ some (owned_by 2)
unfolding find_state
other_found = refl

foreign : find_state world 3 4 ≡ none
unfolding find_state
foreign = refl

-- A zlib header, four bytes and room for ten.
abbrev small_memory : Memory
small_memory p = if p == 100 then 0x78 else if p == 101 then 0x9C else p

abbrev small_stream : Stream
small_stream = record stream { avail_in = 6; avail_out = 10 }

whole_decoded :
    (choose_policy at_once (owned_by 1) small_stream small_memory (pos 0)).1.avail_out ≡ 8
unfolding choose_policy wrong_format after_whole take_whole has_zlib_header span
whole_decoded = refl

choose_policy_cases_example :
    (((choose_policy at_once (owned_by 1) small_stream small_memory (pos 0)).0.policy ≡ done)
      × IsWhole small_stream
          (choose_policy at_once (owned_by 1) small_stream small_memory (pos 0)).1
          (choose_policy at_once (owned_by 1) small_stream small_memory (pos 0)).2)
    ⊎ IsFallback
        (owned_by 1)
        (choose_policy at_once (owned_by 1) small_stream small_memory (pos 0)).0
        small_stream
        (choose_policy at_once (owned_by 1) small_stream small_memory (pos 0)).1
choose_policy_cases_example =
    choose_policy_cases at_once (owned_by 1) small_stream small_memory (pos 0)

serve_unowned_example : serve instance_of world 4 reset_request ≡ (inflate_stream_error, world)
serve_unowned_example = serve_unowned instance_of world 4 reset_request refl foreign

serve_keeps_others_example :
    ((serve instance_of world 1 (copy_request 2 (some 900))).1.streams 2 ≡ world.streams 2)
    × (find_state (serve instance_of world 1 (copy_request 2 (some 900))).1 3 2 ≡ some (owned_by 2))
serve_keeps_others_example =
    serve_keeps_others instance_of world 1 2 (copy_request 2 (some 900)) (owned_by 2) (ground arith)
      refl other_found
