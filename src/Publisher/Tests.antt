-- ===== src/Publisher/Tests.antt =====
-- Runs of the batcher on small inputs, and the theorems at inputs that meet their hypotheses.
use frame_processor.Base.{
  All, ◌+◌, ◌*◌, find, insert, erase, ◌≡◌, refl, true, false, ℤ, pos, negsuc, List, [], ◌∷◌, ◌++◌,
  codes, arith, map, some,
}
use frame_processor.Types.{Frame, DecodedFrame, StreamConfig, EventConfig, ProcessingConfig, one}
use frame_processor.Publisher.Serialize.{
  append_frame, header, total_entry_size, y_plane_size, uv_plane_size, copy_rows,
}
use frame_processor.Publisher.Memory.{blit, read, le_bytes}
use frame_processor.Fifo.{new, push, stop, wait_and_pop}
use frame_processor.Publisher.Layout.{IsPlanar, packed, append_frame-packed}
use frame_processor.Publisher.Decode.{decode, picture, append_frames, decode-append_frames}
use frame_processor.Publisher.Batching.{
  Event, arrives, closes, takes, round, batching, advance, finish, receive, pack, extended, flush,
  fresh, batch_key,
}
use frame_processor.Publisher.Accounts.{blob_for}
use frame_processor.Publisher.Rounds.{Unreturned, held}
use frame_processor.Publisher.Conservation.{batching-held}
use frame_processor.Publisher.Shutdown.{start, start-IsRunning, stop_request-strands}

-- A picture of two by two with four bytes to a row in memory.
abbrev pub frame : ℤ → Frame
frame pts = record {
  width = pos 2;
  height = pos 2;
  format = pos 0;
  pts = pts;
  plane = λ p o. 16 * p + o;
  linesize = λ p. pos 4;
  sample_aspect_ratio = record { num = pos 1; den = pos 1 };
}

abbrev pub plain : ProcessingConfig
plain = record {
  scale = record { width = pos 0; height = pos 0 };
  crop = record { x = pos 0; y = pos 0; width = pos 0; height = pos 0 };
}

abbrev event : EventConfig
event = record {
  id = 0;
  name = codes "ev";
  target_fps = one;
  batch_size = pos 2;
  processing = plain;
}

pub frame-IsPlanar : (pts : ℤ) → IsPlanar (frame pts)
frame-IsPlanar pts = record {
  width_nonneg = refl;
  height_nonneg = refl;
  width_int = omega arith;
  height_int = omega arith;
  area = omega arith;
  stride_nonneg = λ p h. refl;
  stride_int = λ p h. omega arith;
  plane_size = λ p h. omega arith;
}

abbrev pub camera : StreamConfig
camera = record {
  id = pos 7;
  url = codes "rtsp";
  target_fps = one;
  wait_for_keyframe = false;
  enabled = true;
  processing = plain;
  events = [];
}

abbrev pub decoded : ℤ → DecodedFrame
decoded pts = record {
  frame = frame pts;
  source_config = camera;
  event_config = event;
  time_base = record { num = pos 1; den = pos 1000 };
}

packed_run :
    append_frame (frame (negsuc 0)) (9 ∷ [])
    ≡ 9 ∷ 255 ∷ 255 ∷ 255 ∷ 255 ∷ 255 ∷ 255 ∷ 255 ∷ 255 ∷ 2 ∷ 0 ∷ 0 ∷ 0 ∷ 2 ∷ 0 ∷ 0 ∷ 0 ∷ 0 ∷ 1 ∷ 4
      ∷ 5 ∷ 16 ∷ 32 ∷ []
unfolding append_frame header total_entry_size y_plane_size uv_plane_size copy_rows blit read
    le_bytes
packed_run = refl

append_frame-packed_example : append_frame (frame (pos 3)) (9 ∷ []) ≡ 9 ∷ packed (frame (pos 3))
append_frame-packed_example = append_frame-packed (frame (pos 3)) (9 ∷ []) (frame-IsPlanar (pos 3))

decode-append_frames_example :
    decode 2 (append_frames (frame (pos 3) ∷ frame (negsuc 4) ∷ []) [])
    ≡ some (picture (frame (pos 3)) ∷ picture (frame (negsuc 4)) ∷ [])
decode-append_frames_example =
    decode-append_frames (frame (pos 3) ∷ frame (negsuc 4) ∷ [])
      ((frame-IsPlanar _, omega arith), ((frame-IsPlanar _, omega arith), tt))

-- Three frames, of which the batch size takes two; a publisher takes that batch, and the end of the
-- queue flushes the third.
abbrev history : List Event
history =
    arrives (decoded (pos 1)) 5
    ∷ arrives (decoded (pos 2)) 6
    ∷ round false 7
    ∷ round false 8
    ∷ takes
    ∷ arrives (decoded (pos 3)) 9
    ∷ closes
    ∷ round false 10
    ∷ round false 11
    ∷ []

history_ends : (batching history (start 1000 [])).finished ≡ true
unfolding batching advance receive finish pack extended flush fresh new push stop wait_and_pop find
    insert erase batch_key
history_ends = refl

-- What the history publishes: the first two frames in a batch that is taken, the third on the queue.
history_counts : map (λ b. b.frame_count) (batching history (start 1000 [])).taken ≡ 2 ∷ []
unfolding batching advance receive finish pack extended flush fresh new push stop wait_and_pop find
    insert erase batch_key
history_counts = refl

unreturned : All Unreturned history
unreturned = (tt, (tt, (tt, (tt, (tt, (tt, (tt, (tt, (tt, tt)))))))))

batching-held_example :
    let s = batching history (start 1000 []) in
    held (pos 7, codes "ev") s
    ≡ held (pos 7, codes "ev") (start 1000 [])
      ++ blob_for (pos 7, codes "ev") (decoded (pos 1) ∷ decoded (pos 2) ∷ decoded (pos 3) ∷ [])
unfolding fresh new
batching-held_example =
    (batching-held (pos 7, codes "ev") history (start 1000 []) unreturned (start-IsRunning 1000 [])
      (frame-IsPlanar _, (frame-IsPlanar _, (frame-IsPlanar _, tt)))).0

-- One frame waits when the stop request comes.
abbrev waiting : List Event
waiting = arrives (decoded (pos 1)) 5 ∷ []

stop_request-strands_example :
    (batching [] (advance (round true 6) (batching waiting (start 1000 [])))).processed.queue
    ≡ decoded (pos 1) ∷ []
unfolding batching advance fresh new push
stop_request-strands_example = stop_request-strands [] 6 (batching waiting (start 1000 [])) refl
