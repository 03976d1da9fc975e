-- ===== src/Publisher/Connection.antt =====
-- utils/redis_client.h, `RedisConnection`: the owner of a hiredis context. hiredis is not in the
-- repository: what `redisConnectWithTimeout` gives is an input, and a context is known by its number.
use frame_processor.Base.{
  ◌≡◌, ap, ◌∙◌, append-nil, append_assoc, ℕ, Bool, true, false, List, [], ◌∷◌, ◌++◌, Option, none,
  some,
}

-- No context, one with an error, or one that is connected.
pub data Connect : Type 0 where
  no_context : Connect
  with_error ready : ℕ → Connect

pub record RedisConnection : Type 0 where
  pub context : Option ℕ

-- The contexts that hiredis has made, and those that have been given to `redisFree`.
pub record Ledger : Type 0 where
  pub made : List ℕ
  pub freed : List ℕ

-- The constructor frees a context with an error at once.
unfoldable pub new_connection : Connect → Ledger → RedisConnection × Ledger
new_connection no_context l = (record { context = none }, l)
new_connection (with_error c) l =
    (record { context = none }, record { made = l.made ++ c ∷ []; freed = l.freed ++ c ∷ [] })
new_connection (ready c) l = (record { context = some c }, record l { made = l.made ++ c ∷ [] })

-- The destructor.
unfoldable pub destroy : RedisConnection → Ledger → Ledger
destroy r l = elim r.context [ none ↦ l | some c ↦ record l { freed = l.freed ++ c ∷ [] } ]

unfoldable pub is_valid : RedisConnection → Bool
is_valid r = elim r.context [ none ↦ false | some c ↦ true ]

unfoldable pub get : RedisConnection → Option ℕ
get r = r.context

-- The move constructor: the new connection, and the other one.
unfoldable pub moved : RedisConnection → RedisConnection × RedisConnection
moved other = (other, record { context = none })

-- The move assignment of another connection frees what the own one has.
unfoldable pub move_assigned :
    RedisConnection → RedisConnection → Ledger → (RedisConnection × RedisConnection) × Ledger
unfolding moved destroy
move_assigned self other l = (moved other, destroy self l)

-- The contexts that are freed or owned.
abbrev owned : RedisConnection → List ℕ
owned r = elim r.context [ none ↦ [] | some c ↦ c ∷ [] ]

-- An assignment loses no context and frees none twice: those freed and owned stay the same.
move_assigned-freed :
    (self other : RedisConnection) (l : Ledger)
    → (let (both, l') = move_assigned self other l in l'.freed ++ (owned both.0 ++ owned both.1))
      ≡ l.freed ++ (owned self ++ owned other)
unfolding move_assigned moved destroy
move_assigned-freed self other l = of_context self.context
  where
    of_context :
        (o : Option ℕ)
        → (elim o as (λ o. Ledger) [
          | none ↦ l
          | some c ↦ record l { freed = l.freed ++ c ∷ [] }
        ]).freed
            ++ (owned other ++ [])
          ≡ l.freed ++ ((elim o as (λ o. List ℕ) [ none ↦ [] | some c ↦ c ∷ [] ]) ++ owned other)
    of_context none = ap (λ cs. l.freed ++ cs) (append-nil (owned other))
    of_context (some c) =
        append_assoc l.freed (c ∷ []) (owned other ++ [])
        ∙ ap (λ cs. l.freed ++ c ∷ cs) (append-nil (owned other))
