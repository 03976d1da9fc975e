-- ===== src/Config/Transfer.antt =====
-- config_manager.cpp, lines 25 to 91 and 241 to 271: `CurlHandle`, the callback that collects what is
-- received, and `fetch_config_from_api`. A handle of libcurl is known by its number.
use frame_processor.Base.{
  ℕ, ◌≡◌, refl, sym, append-nil, append_assoc, arith, ℤ, pos, eqb_ℤ, Bool, true, false, not, List,
  [], ◌∷◌, ◌++◌, length, Option, none, some, Text, if_both, if◌then◌else◌,
}
use frame_processor.Base.Ranges.{IfSome}

pub record CurlHandle : Type 0 where
  pub handle : Option ℕ

-- The destructor: the handles that have been given to `curl_easy_cleanup` afterwards.
unfoldable cleanup : CurlHandle → List ℕ → List ℕ
cleanup c cleaned = elim c.handle [ none ↦ cleaned | some h ↦ cleaned ++ h ∷ [] ]

-- The move constructor: the new object, and the other one.
unfoldable pub moved : CurlHandle → CurlHandle × CurlHandle
moved other = (other, record { handle = none })

-- The move assignment of another object.
unfoldable pub move_assigned : CurlHandle → CurlHandle → List ℕ → (CurlHandle × CurlHandle) × List ℕ
unfolding cleanup moved
move_assigned self other cleaned = (moved other, cleanup self cleaned)

-- A piece of the answer, and whether there is memory to append it.
pub record Chunk : Type 0 where
  pub contents : Text
  pub has_memory : Bool

-- `write_callback`: the number of bytes handled, and the buffer.
unfoldable write_callback : Chunk → Text → ℕ × Text
write_callback c userp =
    if c.has_memory then (length c.contents, userp ++ c.contents) else (0, userp)

-- The calls of the callback until one handles fewer bytes than it was given, at which libcurl ends a
-- transfer: whether none did, and the buffer.
unfoldable collect : List Chunk → Text → Bool × Text
unfolding write_callback
collect [] buffer = (true, buffer)
collect (c ∷ cs) buffer =
    let rest = collect cs (write_callback c buffer).1 in
    if c.has_memory then rest else (false, (write_callback c buffer).1)

-- What libcurl does: the handle of `curl_easy_init`, the pieces that arrive, whether the transfer
-- succeeds otherwise, and the code of the answer.
pub record Transfer : Type 0 where
  pub init : Option ℕ
  pub chunks : List Chunk
  pub performs : Bool
  pub http_code : ℤ

-- The answer, and the handles that have been cleaned up.
pub record Fetched : Type 0 where
  pub answer : Option Text
  pub cleaned : List ℕ

unfoldable pub fetch_config_from_api : Transfer → Fetched
unfolding cleanup collect
fetch_config_from_api t = elim t.init [
  | none ↦ record { answer = none; cleaned = [] }
  | some h ↦
      let curl : CurlHandle = record { handle = some h } in
      let (complete, read_buffer) = collect t.chunks [] in
      record {
        answer =
            if not t.performs
            then none
            else if not complete
            then none
            else if not (eqb_ℤ t.http_code (pos 200))
            then none
            else some read_buffer;
        cleaned = cleanup curl [];
      }
]

-- The pieces of an answer, one after the other.
abbrev contents_of : List Chunk → Text
contents_of [] = []
contents_of (c ∷ cs) = c.contents ++ contents_of cs

-- A transfer without a lack of memory gives all that has arrived, in its order.
collect-contents :
    (cs : List Chunk) (buffer : Text)
    → (collect cs buffer).0 ≡ true
    → (collect cs buffer).1 ≡ buffer ++ contents_of cs
unfolding collect write_callback
collect-contents [] buffer h = sym (append-nil buffer)
collect-contents (c ∷ cs) buffer h = ground (
  arith,
  collect-contents cs (buffer ++ c.contents),
  append_assoc buffer c.contents (contents_of cs),
)

-- An answer is all that has arrived, and its code is 200.
fetch_config_from_api-answer :
    (t : Transfer)
    → IfSome
        (λ text. (text ≡ contents_of t.chunks) × (eqb_ℤ t.http_code (pos 200) ≡ true))
        (fetch_config_from_api t).answer
unfolding fetch_config_from_api
fetch_config_from_api-answer t = of_init t.init
  where
    IsAnswer : Text → Type 0
    IsAnswer text = (text ≡ contents_of t.chunks) × (eqb_ℤ t.http_code (pos 200) ≡ true)

    of_code :
        (b : Bool) (r : Bool × Text)
        → eqb_ℤ t.http_code (pos 200) ≡ b
        → (r.0 ≡ true → r.1 ≡ contents_of t.chunks)
        → IfSome IsAnswer (if not r.0 then none else if not b then none else some r.1)
    of_code b (false, text) e f = tt
    of_code false (true, text) e f = tt
    of_code true (true, text) e f = (f refl, e)

    of_init :
        (o : Option ℕ)
        → IfSome IsAnswer
            (elim o as (λ o. Fetched) [
              | none ↦ record { answer = none; cleaned = [] }
              | some h ↦ record {
                answer =
                    if not t.performs
                    then none
                    else if not (collect t.chunks []).0
                    then none
                    else if not (eqb_ℤ t.http_code (pos 200))
                    then none
                    else some (collect t.chunks []).1;
                cleaned = cleanup (record { handle = some h }) [];
              }
            ]).answer
    of_init none = tt
    of_init (some h) = if_both (IfSome IsAnswer) (not t.performs) tt (
        of_code (eqb_ℤ t.http_code (pos 200)) (collect t.chunks []) refl
          (collect-contents t.chunks []))
