-- ===== src/Publisher/Ledger.antt =====
-- publisher.cpp, `publisher_loop`, and redis_client.h: every context of hiredis that a publisher
-- thread makes is freed once.
use frame_processor.Base.{
  ℕ, Bool, true, false, List, [], ◌∷◌, ◌++◌, ◌≡◌, refl, sym, ap, ◌∙◌, subst, Option, none, some,
  Text, if◌then◌else◌, if_both, Bool-cases, inl, inr, append-nil,
}
use frame_processor.Fifo.{Fifo, Pop, blocks, closed, item, wait_and_pop}
use frame_processor.Publisher.Batching.{FrameBatch}
use frame_processor.Publisher.Connection.{
  Connect, no_context, with_error, ready, RedisConnection, Ledger, new_connection, destroy,
  is_valid,
}
use frame_processor.Publisher.Sender.{
  Sender, Reply, stored, error_reply, no_reply, unanswered, Weather, has_connection, release,
  reconnect, requeue, reset, command, context_of, deliver, handle, Event, offers, takes, closes,
  round, advance, publisher_loop,
}

-- The context of a connection.
abbrev pub held : Option RedisConnection → List ℕ
held none = []
held (some r) = elim r.context [ none ↦ [] | some c ↦ c ∷ [] ]

-- The contexts made are those freed and the one that is held.
IsBalanced : Sender → Type 0
IsBalanced s = s.ledger.made ≡ s.ledger.freed ++ held s.redis_conn

release-made : (c : Option RedisConnection) (l : Ledger) → (release c l).made ≡ l.made
unfolding release destroy
release-made none l = refl
release-made (some r) l = of_context r.context
  where
    of_context :
        (o : Option ℕ)
        → (elim o as (λ o. Ledger) [
          | none ↦ l
          | some c ↦ record l { freed = l.freed ++ c ∷ [] }
        ]).made
          ≡ l.made
    of_context none = refl
    of_context (some c) = refl

release-freed : (c : Option RedisConnection) (l : Ledger) → (release c l).freed ≡ l.freed ++ held c
unfolding release destroy
release-freed none l = sym (append-nil l.freed)
release-freed (some r) l = of_context r.context
  where
    of_context :
        (o : Option ℕ)
        → (elim o as (λ o. Ledger) [
          | none ↦ l
          | some c ↦ record l { freed = l.freed ++ c ∷ [] }
        ]).freed
          ≡ l.freed ++ elim o [ none ↦ [] | some c ↦ c ∷ [] ]
    of_context none = sym (append-nil l.freed)
    of_context (some c) = refl

reset-IsBalanced : (s : Sender) → IsBalanced s → IsBalanced (reset s)
unfolding reset IsBalanced
reset-IsBalanced s h =
    release-made s.redis_conn s.ledger
    ∙ (h
        ∙ (sym (release-freed s.redis_conn s.ledger)
            ∙ sym (append-nil (release s.redis_conn s.ledger).freed)))

new_connection-IsBalanced :
    (c : Connect) (l : Ledger)
    → l.made ≡ l.freed
    → (new_connection c l).1.made
      ≡ (new_connection c l).1.freed ++ held (some (new_connection c l).0)
unfolding new_connection
new_connection-IsBalanced no_context l h = h ∙ sym (append-nil l.freed)
new_connection-IsBalanced (with_error c) l h =
    ap (λ m. m ++ c ∷ []) h ∙ sym (append-nil (l.freed ++ c ∷ []))
new_connection-IsBalanced (ready c) l h = ap (λ m. m ++ c ∷ []) h

-- A connection without a context holds none, and its release changes nothing.
held_none : (c : Option RedisConnection) → has_connection c ≡ false → held c ≡ []
unfolding has_connection is_valid
held_none none h = refl
held_none (some r) h = of_context r.context h
  where
    of_context :
        (o : Option ℕ)
        → elim o as (λ o. Bool) [ none ↦ false | some c ↦ true ] ≡ false
        → elim o as (λ o. List ℕ) [ none ↦ [] | some c ↦ c ∷ [] ] ≡ []
    of_context none h = refl
    of_context (some c) h = cc

reconnect-IsBalanced :
    (c : Connect) (s : Sender)
    → has_connection s.redis_conn ≡ false
    → IsBalanced s
    → IsBalanced (reconnect c s)
unfolding reconnect IsBalanced
reconnect-IsBalanced c s n h =
    let l = (new_connection c s.ledger).1 in
    let idle = held_none s.redis_conn n in
    let equal : s.ledger.made ≡ s.ledger.freed =
      h ∙ (ap (λ m. s.ledger.freed ++ m) idle ∙ append-nil s.ledger.freed) in
    let kept : (release s.redis_conn l).freed ≡ l.freed =
      release-freed s.redis_conn l ∙ (ap (λ m. l.freed ++ m) idle ∙ append-nil l.freed) in
    release-made s.redis_conn l
    ∙ (new_connection-IsBalanced c s.ledger equal
        ∙ ap (λ m. m ++ held (some (new_connection c s.ledger).0)) (sym kept))

requeue-IsBalanced :
    (b : FrameBatch) (now : ℕ) (s : Sender) → IsBalanced s → IsBalanced (requeue b now s)
unfolding requeue IsBalanced
requeue-IsBalanced b now s h = h

command-IsBalanced :
    (base : Text) (e : Weather) (b : FrameBatch) (c : Option ℕ) (s : Sender)
    → IsBalanced s
    → IsBalanced (command base e b c s)
unfolding command requeue reset unanswered IsBalanced
command-IsBalanced base e b none s h = reset-IsBalanced (requeue b e.now s) h
command-IsBalanced base e b (some ctx) s h = of_reply e.reply
  where
    of_reply : (r : Reply) → IsBalanced (command base (record e { reply = r }) b (some ctx) s)
    of_reply stored = h
    of_reply error_reply = h
    of_reply (no_reply true) = reset-IsBalanced s h
    of_reply (no_reply false) = reset-IsBalanced s h

deliver-IsBalanced :
    (base : Text) (e : Weather) (b : FrameBatch) (s : Sender)
    → IsBalanced s
    → IsBalanced (deliver base e b s)
unfolding deliver requeue
deliver-IsBalanced base e b s h = elim (Bool-cases (has_connection s.redis_conn)) [
  | inl n ↦
      subst IsBalanced (sym (ap (λ c. if c then now_sent else later) n))
        (command-IsBalanced base e b (context_of s.redis_conn) s h)
  | inr n ↦ subst IsBalanced (sym (ap (λ c. if c then now_sent else later) n)) (
      let again = reconnect-IsBalanced e.connects s n h in
      if_both IsBalanced (has_connection (reconnect e.connects s).redis_conn)
        (command-IsBalanced base e b (context_of (reconnect e.connects s).redis_conn)
          (reconnect e.connects s) again)
        (requeue-IsBalanced b e.now (reconnect e.connects s) again))
]
  where
    now_sent : Sender
    now_sent = command base e b (context_of s.redis_conn) s

    later : Sender
    later =
        if has_connection (reconnect e.connects s).redis_conn
        then command base e b (context_of (reconnect e.connects s).redis_conn)
            (reconnect e.connects s)
        else requeue b e.now (reconnect e.connects s)

handle-IsBalanced :
    (base : Text) (dry_run : Bool) (e : Weather) (r : Pop FrameBatch × Fifo FrameBatch) (s : Sender)
    → IsBalanced s
    → IsBalanced (handle base dry_run e r s)
unfolding handle IsBalanced
handle-IsBalanced base dry_run e (blocks, q) s h = h
handle-IsBalanced base dry_run e (closed, q) s h = h
handle-IsBalanced base dry_run e (item b, q) s h =
    if_both IsBalanced dry_run h (deliver-IsBalanced base e b (record s { batch_queue = q }) h)

advance-IsBalanced :
    (base : Text) (dry_run : Bool) (e : Event) (s : Sender)
    → IsBalanced s
    → IsBalanced (advance base dry_run e s)
unfolding advance IsBalanced
advance-IsBalanced base dry_run (offers b now) s h = h
advance-IsBalanced base dry_run takes s h = h
advance-IsBalanced base dry_run closes s h = h
advance-IsBalanced base dry_run (round r e) s h =
    if_both IsBalanced s.finished h
      (if_both IsBalanced r h (handle-IsBalanced base dry_run e (wait_and_pop s.batch_queue) s h))

publisher_loop-IsBalanced :
    (base : Text) (dry_run : Bool) (es : List Event) (s : Sender)
    → IsBalanced s
    → IsBalanced (publisher_loop base dry_run es s)
unfolding publisher_loop
publisher_loop-IsBalanced base dry_run [] s h = h
publisher_loop-IsBalanced base dry_run (e ∷ es) s h =
    publisher_loop-IsBalanced base dry_run es (advance base dry_run e s)
      (advance-IsBalanced base dry_run e s h)

-- A thread that starts with a new connection and no contexts before it has, when its last connection
-- is released at the end, freed every context that was made, each once and in the order of their
-- making, whatever failed in between.
pub publisher_loop-frees :
    (base : Text) (dry_run : Bool) (c : Connect) (es : List Event) (s : Sender)
    → s.redis_conn ≡ none
    → s.ledger ≡ record { made = []; freed = [] }
    → (let end = publisher_loop base dry_run es (reconnect c s) in
        (release end.redis_conn end.ledger).freed ≡ (release end.redis_conn end.ledger).made)
unfolding IsBalanced has_connection
publisher_loop-frees base dry_run c es s n l =
    let first : IsBalanced s = rw (l, n) refl in
    let start = reconnect-IsBalanced c s (ap has_connection n) first in
    let end = publisher_loop base dry_run es (reconnect c s) in
    release-freed end.redis_conn end.ledger
    ∙ (sym (publisher_loop-IsBalanced base dry_run es (reconnect c s) start)
        ∙ sym (release-made end.redis_conn end.ledger))
