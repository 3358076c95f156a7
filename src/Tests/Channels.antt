-- ===== src/Tests/Channels.antt =====
-- A channel at 40 with a buffer of three elements that holds 30 and 10 across the end of its array.
use libtask.Base.{replicate, ◌≡◌, refl, [], ◌∷◌, arith, ◌==◌, if◌then◌else◌}
use libtask.Tasklist.{nil}
use libtask.Sched.{ok}
use libtask.Channel.Types.{Channel, World, empty_array, chansnd, chanrcv}
use libtask.Channel.Arrays.{is_end}
use libtask.Channel.Waiters.{Room}
use libtask.Channel.Copy.{altcopy}
use libtask.Channel.Ring.{Ring, contents}
use libtask.Channel.Exchange.{Exchanged, altcopy-Exchanged}
use libtask.Channel.Buffered.{Idle}
use libtask.Channel.Nonblocking.{Sent, channbsend-Sent, Received, channbrecv-Received}
use libtask.Channel.Api.{channbsend, channbrecv, channbsendul, channbrecvul, success}
use libtask.Tests.Samples.{sys, pair-Holds}
use libtask.Channel.Select.{altexec}
use libtask.Channel.Words.{channbrecvul-channbsendul}
use libtask.Channel.Meet.{Met, altexec-Met}
use libtask.Channel.Serve.{Served, altexec-Served}

abbrev chan : Channel
chan = record {
  bufsize = 3;
  elemsize = 4;
  buf = 10 ∷ 20 ∷ 30 ∷ [];
  nbuf = 2;
  off = 2;
  asend = empty_array;
  arecv = empty_array;
}

chan-Ring : Ring chan
chan-Ring = record {
  off = omega arith;
  fits = omega arith;
  nbuf = omega arith;
  small = omega arith;
}

chan-Idle : Idle chan
chan-Idle = record { ring = chan-Ring; no_senders = refl; no_receivers = refl }

-- The `Alt` at 60 sends the element at 70, that at 61 receives one into the element at 71.
abbrev world : World
world = record {
  sys = sys;
  alts = λ a. record {
    c = 40;
    v = if a == 60 then 70 else 71;
    op = if a == 60 then chansnd else chanrcv;
    task = nil;
    xalt = nil;
  };
  chans = λ _. chan;
  mem = λ a. a;
}

altcopy-Exchanged_example :
    (x : World) × (altcopy 60 61 world ≡ ok x)
    × (altcopy 61 60 world ≡ ok x)
    × Exchanged 60 61 world x
altcopy-Exchanged_example =
    altcopy-Exchanged 60 61 world
      (record {
        sender = λ e. omega arith;
        receiver = λ e. omega arith;
        sends = refl;
        receives = refl;
        same = refl;
        from = λ e. omega arith;
        to = λ e. omega arith;
        apart = λ e. omega arith;
      })
      chan-Ring

channbsend-Sent_example : Sent (channbsend 2 60 40 70 5 6 world) 40 70 world
channbsend-Sent_example =
    channbsend-Sent 2 60 40 70 5 6 world (omega arith) (λ e. omega arith) (λ e. omega arith)
      chan-Idle

channbrecv-Received_example : Received (channbrecv 2 60 40 70 5 6 world) 40 70 world
channbrecv-Received_example =
    channbrecv-Received 2 60 40 70 5 6 world (omega arith) (λ e. omega arith) (λ e. omega arith)
      chan-Idle

-- The operations at 61 and 62 wait to receive.
abbrev crowded : World
crowded = record world {
  chans = λ _. record chan { arecv = record { a = 61 ∷ 62 ∷ replicate 14 nil; n = 2; m = 16 } };
}

crowded-Room : Room (record { a = 61 ∷ 62 ∷ replicate 14 nil; n = 2; m = 16 })
crowded-Room = record { size = refl; used = omega arith; small = omega arith }

-- Task 4 waits at an empty channel, with the operation at 61 and the end of its group at 62.
abbrev meeting : World
meeting = record {
  sys = sys;
  alts = λ a. record {
    c = 40;
    v = if a == 60 then 70 else 71;
    op = if a == 60 then chansnd else (if a == 61 then chanrcv else 0);
    task = 4;
    xalt = 61;
  };
  chans =
      λ _. record chan { nbuf = 0; arecv = record { a = 61 ∷ replicate 15 nil; n = 1; m = 16 } };
  mem = λ a. a;
}

altexec-Met_example :
    (x : World) × (altexec 2 60 5 meeting ≡ ok x) × Met meeting x 60 61 (2 ∷ 3 ∷ [])
unfolding is_end
altexec-Met_example =
    altexec-Met 2 60 5 meeting 61 (2 ∷ 3 ∷ [])
      (record {
        sender = λ e. omega arith;
        receiver = λ e. omega arith;
        sends = refl;
        receives = refl;
        same = refl;
        from = λ e. omega arith;
        to = λ e. omega arith;
        apart = λ e. omega arith;
      })
      (record { base = refl; end = refl }) refl
      (record { size = refl; used = omega arith; small = omega arith }) (λ e. omega arith) refl
      (omega arith) pair-Holds (omega arith)

abbrev drained : Channel
drained = record chan { nbuf = 0 }

drained-Idle : Idle drained
drained-Idle = record {
  ring = record { off = omega arith; fits = omega arith; nbuf = omega arith; small = omega arith };
  no_senders = refl;
  no_receivers = refl;
}

channbrecvul-channbsendul_example :
    (x : World) × (y : World) × (channbsendul 2 60 40 70 5 6 99
        (record world { chans = λ _. drained })
      ≡ ok (success, x))
    × (channbrecvul 2 62 40 72 7 8 x ≡ ok (99, y))
    × (contents (y.chans 40) ≡ [])
channbrecvul-channbsendul_example =
    channbrecvul-channbsendul 2 60 40 70 5 6 62 72 7 8 99 (record world { chans = λ _. drained })
      (omega arith) (λ e. omega arith) (λ e. omega arith) (λ e. omega arith) (λ e. omega arith)
      drained-Idle refl (omega arith) refl

-- Task 4 waits at a full channel to send, with the operation at 61.
abbrev serving : World
serving = record {
  sys = sys;
  alts = λ a. record {
    c = 40;
    v = if a == 60 then 70 else 71;
    op = if a == 60 then chanrcv else (if a == 61 then chansnd else 0);
    task = 4;
    xalt = 61;
  };
  chans =
      λ _. record chan { nbuf = 3; asend = record { a = 61 ∷ replicate 15 nil; n = 1; m = 16 } };
  mem = λ a. a;
}

altexec-Served_example :
    (x : World) × (altexec 2 60 5 serving ≡ ok x) × Served serving x 60 61 (2 ∷ 3 ∷ [])
unfolding is_end
altexec-Served_example =
    altexec-Served 2 60 5 serving 61 (2 ∷ 3 ∷ [])
      (record {
        sender = λ e. omega arith;
        receiver = λ e. omega arith;
        sends = refl;
        receives = refl;
        same = refl;
        from = λ e. omega arith;
        to = λ e. omega arith;
        apart = λ e. omega arith;
      })
      (record { base = refl; end = refl })
      (record { off = omega arith; fits = omega arith; nbuf = omega arith; small = omega arith })
      (record { size = refl; used = omega arith; small = omega arith }) (λ e. omega arith) refl
      (omega arith) pair-Holds (omega arith)
