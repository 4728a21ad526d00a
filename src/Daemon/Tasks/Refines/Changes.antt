-- ===== src/Daemon/Tasks/Refines/Changes.antt =====
-- A round of the clipboard's loop as a sequence of its accesses.
use penguinsync.Base.{
  Bytes, Str, Bool, true, false, [], Option, none, some, ite, ◌=?◌, bytes_key, if◌then◌else◌,
}
use penguinsync.Protocol.Clip.{Clip, ClipError, mime_text_plain}
use penguinsync.Protocol.Clip
use penguinsync.Base.Result.{Result, ok, err}
use penguinsync.Daemon.Shared.{Shared}
use penguinsync.Daemon.Clipboard.{watch_round, broadcast, send_all, should_broadcast, values}
use penguinsync.Daemon.Tasks.{watching, noticed, collecting, notice, watch_on}
use penguinsync.Daemon.Tasks.Ticks.{
  System, Tick, kept, Method, orchestrates, expires, calls, proceeds, watches, proceed_nth, step,
  run,
}
use penguinsync.Daemon.Tasks.Ticks
use penguinsync.Daemon.Tasks.Alone.Marking.{resting}
use penguinsync.Daemon.Tasks.Refines.Reach.{at_rest, Reaches, ticks, there}

module _ (blake3 : Bytes → Bytes) where
  -- The loop at the clip that was read.
  noticed-Reaches :
      (s : Shared) (clip : Clip)
      → Reaches blake3
          (record { shared = s; place = resting s.waiting; calls = []; watch = noticed clip })
          (at_rest (broadcast s clip))
  unfolding step watch_on broadcast send_all
  noticed-Reaches s clip = ticks blake3 _ watches (by_hash is_new)
    where
      last : Option Bytes
      last = (should_broadcast s.last_hash clip.hash).0

      is_new : Bool
      is_new = (should_broadcast s.last_hash clip.hash).1

      s' : Shared
      s' = record s { last_hash = last }

      by_hash :
          (b : Bool)
          → Reaches blake3
              (record {
                shared = s';
                place = resting s.waiting;
                calls = [];
                watch = if b then collecting clip else watching;
              })
              (at_rest (if b then send_all (values s.connected_devices) clip s' else s'))
      by_hash true = ticks blake3 _ watches (
          ticks blake3 _ watches
            (there blake3 (at_rest (send_all (values s.connected_devices) clip s'))))
      by_hash false = there blake3 (at_rest s')

  pub changes-Reaches :
      (s : Shared) (mime : Str) (read : Option Bytes)
      → Reaches blake3 (at_rest s) (at_rest (watch_round blake3 s mime read))
  unfolding step notice watch_round
  changes-Reaches s mime read =
      ticks blake3 (at_rest s) (Ticks.changes mime read) (by_type (mime =? mime_text_plain))
    where
      by_clip :
          (r : Result ClipError Clip)
          → Reaches blake3
              (record {
                shared = s;
                place = resting s.waiting;
                calls = [];
                watch = elim r [ err e ↦ watching | ok clip ↦ noticed clip ];
              })
              (at_rest (elim r [ err e ↦ s | ok clip ↦ broadcast s clip ]))
      by_clip (err e) = there blake3 (at_rest s)
      by_clip (ok clip) = noticed-Reaches s clip

      by_read :
          (o : Option Bytes)
          → Reaches blake3
              (record {
                shared = s;
                place = resting s.waiting;
                calls = [];
                watch = elim o [
                  | none ↦ watching
                  | some bytes ↦ elim (Clip.new blake3 mime bytes) [
                    | err e ↦ watching
                    | ok clip ↦ noticed clip
                  ]
                ];
              })
              (at_rest (elim o [
                | none ↦ s
                | some bytes ↦ elim (Clip.new blake3 mime bytes) [
                  | err e ↦ s
                  | ok clip ↦ broadcast s clip
                ]
              ]))
      by_read none = there blake3 (at_rest s)
      by_read (some bytes) = by_clip (Clip.new blake3 mime bytes)

      by_type :
          {Q : Type 0} (d : Dec Q)
          → Reaches blake3
              (record {
                shared = s;
                place = resting s.waiting;
                calls = [];
                watch =
                    ite d
                      (elim read [
                        | none ↦ watching
                        | some bytes ↦ elim (Clip.new blake3 mime bytes) [
                          | err e ↦ watching
                          | ok clip ↦ noticed clip
                        ]
                      ])
                      watching;
              })
              (at_rest (
                ite d
                  (elim read [
                    | none ↦ s
                    | some bytes ↦ elim (Clip.new blake3 mime bytes) [
                      | err e ↦ s
                      | ok clip ↦ broadcast s clip
                    ]
                  ])
                  s))
      by_type (yes _) = by_read read
      by_type (no _) = there blake3 (at_rest s)
