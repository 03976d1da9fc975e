-- ===== src/Publisher/Accounts.antt =====
-- The bytes that the map and the queue of batches hold for a stream and event.
use frame_processor.Base.{
  ℕ, ◌<◌, ◌≡◌, refl, ap, sym, ◌∙◌, Bool, false, List, [], ◌∷◌, ◌++◌, append_assoc, append-nil,
  Option, none, some, arith, if◌then◌else◌, find, find-insert, find-erase, Unique, insert-Unique,
  erase-Unique, Entries, find-Entries, insert-Entries, erase-Entries, insert, erase, Bool-cases,
  Option-cases, inl, inr, lt→ltb, leb_ℤ, pos, subst,
}
use frame_processor.Types.{DecodedFrame}
use frame_processor.Fifo.{Fifo, push}
use frame_processor.Fifo.Order.{queue-push_running, stopped-push}
use frame_processor.Publisher.Layout.{packed, IsPlanar, append_frame-packed}
use frame_processor.Publisher.Batching.{
  FrameBatch, BatchKey, Batches, key_of, batch_key, frame_key, extended, pack, flush,
}

-- The bytes that batches hold for a key, in order.
unfoldable pub bytes_for : BatchKey → List FrameBatch → List ℕ
bytes_for k [] = []
bytes_for k (b ∷ bs) = (if batch_key.eq (key_of b) k then b.data_buffer else []) ++ bytes_for k bs

-- A frame's packed bytes, if it has the key.
abbrev pub own : BatchKey → DecodedFrame → List ℕ
own k d = if batch_key.eq (frame_key d) k then packed d.frame else []

-- The packed bytes of the frames that have a key, in order.
unfoldable pub blob_for : BatchKey → List DecodedFrame → List ℕ
blob_for k [] = []
blob_for k (d ∷ ds) = own k d ++ blob_for k ds

-- What the batch under a key holds.
abbrev pub contents : Option FrameBatch → List ℕ
contents none = []
contents (some b) = b.data_buffer

abbrev pub pending : BatchKey → Batches → List ℕ
pending k m = contents (find batch_key k m)

-- A batch lies under its own key and holds a frame.
abbrev pub IsKeyed : BatchKey → FrameBatch → Type 0
IsKeyed k b = (key_of b ≡ k) × (0 < b.frame_count)

pub bytes_for-append :
    (k : BatchKey) (xs ys : List FrameBatch)
    → bytes_for k (xs ++ ys) ≡ bytes_for k xs ++ bytes_for k ys
unfolding bytes_for
bytes_for-append k [] ys = refl
bytes_for-append k (b ∷ xs) ys =
    ap (λ r. (if batch_key.eq (key_of b) k then b.data_buffer else []) ++ r)
      (bytes_for-append k xs ys)
    ∙ sym (append_assoc _ (bytes_for k xs) (bytes_for k ys))

pub blob_for-append :
    (k : BatchKey) (xs ys : List DecodedFrame)
    → blob_for k (xs ++ ys) ≡ blob_for k xs ++ blob_for k ys
unfolding blob_for
blob_for-append k [] ys = refl
blob_for-append k (d ∷ xs) ys =
    ap (λ r. own k d ++ r) (blob_for-append k xs ys)
    ∙ sym (append_assoc (own k d) (blob_for k xs) (blob_for k ys))

bytes_for-single :
    (k : BatchKey) (b : FrameBatch)
    → bytes_for k (b ∷ []) ≡ (if batch_key.eq (key_of b) k then b.data_buffer else [])
unfolding bytes_for
bytes_for-single k b = append-nil _

-- The batch that a frame joins holds what was pending under its key, then the frame.
extended-buffer :
    (d : DecodedFrame) (m : Batches)
    → IsPlanar d.frame
    → (extended d m).data_buffer ≡ pending (frame_key d) m ++ packed d.frame
unfolding extended
extended-buffer d m ok = elim (Option-cases (find batch_key (frame_key d) m)) [
  | inl e ↦ rw (e, extended) (append_frame-packed d.frame [] ok)
  | inr (b, e) ↦ rw (e, extended) (append_frame-packed d.frame b.data_buffer ok)
]

extended-IsKeyed :
    (d : DecodedFrame) (m : Batches)
    → Entries batch_key IsKeyed m
    → IsKeyed (frame_key d) (extended d m)
unfolding extended
extended-IsKeyed d m h = elim (Option-cases (find batch_key (frame_key d) m)) [
  | inl e ↦ rw (e, extended) (refl, omega arith)
  | inr (b, e) ↦
      rw (e, extended) ((find-Entries batch_key IsKeyed (frame_key d) b m h e).0, omega arith)
]

-- What a state of the loop holds for a key: on the queue of batches and in the map.
abbrev pub held_by : BatchKey → Batches → Fifo FrameBatch → List ℕ
held_by k m out = bytes_for k out.queue ++ pending k m

-- The map and the queue between two rounds.
pub record IsSound (m : Batches) (out : Fifo FrameBatch) : Type 0 where
  pub unique : Unique batch_key m
  pub keyed : Entries batch_key IsKeyed m
  pub running : out.stopped ≡ false

pub pack-IsSound :
    (d : DecodedFrame) (now : ℕ) (m : Batches) (out : Fifo FrameBatch)
    → IsSound m out
    → IsSound (pack d now m out).0 (pack d now m out).1
unfolding pack
pack-IsSound d now m out v =
    let b = extended d m in
    let k = frame_key d in
    let u = insert-Unique batch_key k b m v.unique in
    let h = insert-Entries batch_key IsKeyed k b m (extended-IsKeyed d m v.keyed) v.keyed in
    ground (
      arith,
      v.running,
      u,
      h,
      erase-Unique batch_key k (insert batch_key k b m) u,
      erase-Entries batch_key IsKeyed k (insert batch_key k b m) h,
      stopped-push b now out,
    )

module _ (k j : BatchKey) (b : FrameBatch) (now : ℕ) (out : Fifo FrameBatch) where
  -- What a batch under key `j` gives to key `k`, before what `k` has.
  pushed-bytes :
      key_of b ≡ j
      → out.stopped ≡ false
      → bytes_for k (push b now out).queue
        ≡ bytes_for k out.queue ++ (if batch_key.eq j k then b.data_buffer else [])
  pushed-bytes e r =
      ap (bytes_for k) (queue-push_running b now out r)
      ∙ bytes_for-append k out.queue (b ∷ [])
      ∙ ap (λ xs. bytes_for k out.queue ++ xs)
          (bytes_for-single k b ∙ ap (λ i. if batch_key.eq i k then b.data_buffer else []) e)

  pushed-held :
      (m : Batches)
      → key_of b ≡ j
      → out.stopped ≡ false
      → bytes_for k (push b now out).queue ++ pending k (erase batch_key j (insert batch_key j b m))
        ≡ bytes_for k out.queue ++ (if batch_key.eq j k then b.data_buffer else pending k m)
  pushed-held m e r =
      rw (pushed-bytes e r, find-erase batch_key j k, find-insert batch_key j k b m)
        (elim (Bool-cases (batch_key.eq j k)) [
          | inl t ↦ rw t (append-nil _)
          | inr t ↦ rw t (ap (λ xs. xs ++ pending k m) (append-nil _))
        ])

  kept-held :
      (m : Batches)
      → bytes_for k out.queue ++ pending k (insert batch_key j b m)
        ≡ bytes_for k out.queue ++ (if batch_key.eq j k then b.data_buffer else pending k m)
  kept-held m =
      rw (find-insert batch_key j k b m)
        (elim (Bool-cases (batch_key.eq j k)) [ inl t ↦ rw t | inr t ↦ rw t ])

pub pack-held :
    (k : BatchKey) (d : DecodedFrame) (now : ℕ) (m : Batches) (out : Fifo FrameBatch)
    → IsSound m out
    → IsPlanar d.frame
    → held_by k (pack d now m out).0 (pack d now m out).1 ≡ held_by k m out ++ own k d
unfolding pack
pack-held k d now m out v ok = elim (Bool-cases full) [
  | inl t ↦ rw t (pushed-held k j b now out m (extended-IsKeyed d m v.keyed).0 v.running ∙ gives)
  | inr t ↦ rw t (kept-held k j b now out m ∙ gives)
]
  where
    j : BatchKey
    j = frame_key d

    b : FrameBatch
    b = extended d m

    full : Bool
    full = leb_ℤ d.event_config.batch_size (pos b.frame_count)

    gives :
        bytes_for k out.queue ++ (if batch_key.eq j k then b.data_buffer else pending k m)
        ≡ held_by k m out ++ own k d
    gives = elim (Bool-cases (batch_key.eq j k)) [
      | inl t ↦
          rw (t, extended-buffer d m ok, (batch_key.eq_iff j k).0 t)
            (sym (append_assoc (bytes_for k out.queue) (pending k m) (packed d.frame)))
      | inr t ↦ rw t (sym (append-nil _))
    ]

pub flush-bytes :
    (k : BatchKey) (now : ℕ) (m : Batches) (out : Fifo FrameBatch)
    → IsSound m out
    → bytes_for k (flush now m out).queue ≡ held_by k m out
unfolding flush find
flush-bytes k now [] out v = sym (append-nil (bytes_for k out.queue))
flush-bytes k now ((j, b) ∷ m) out v =
    rw (lt→ltb 0 b.frame_count v.keyed.0.1, flush)
      (flush-bytes k now m (push b now out) rest
        ∙ rw (pushed-bytes k j b now out v.keyed.0.0 v.running) split)
  where
    rest : IsSound m (push b now out)
    rest = record {
      unique = v.unique.1;
      keyed = v.keyed.1;
      running = stopped-push b now out ∙ v.running;
    }

    split :
        (bytes_for k out.queue ++ (if batch_key.eq j k then b.data_buffer else [])) ++ pending k m
        ≡ bytes_for k out.queue
          ++ contents (if batch_key.eq j k then some b else find batch_key k m)
    split = elim (Bool-cases (batch_key.eq j k)) [
      | inl t ↦
          let gone : find batch_key k m ≡ none =
            subst (λ i. find batch_key i m ≡ none) ((batch_key.eq_iff j k).0 t) v.unique.0 in
          rw (t, gone) (append-nil _)
      | inr t ↦ rw t (ap (λ xs. xs ++ pending k m) (append-nil _))
    ]

pub flush-running :
    (now : ℕ) (m : Batches) (out : Fifo FrameBatch) → (flush now m out).stopped ≡ out.stopped
unfolding flush
flush-running now [] out = refl
flush-running now ((j, b) ∷ m) out = flush-running now m _ ∙ ground (arith, stopped-push b now out)
