-- ===== src/Config/Selection.antt =====
-- Which streams of the file `parse_config_json` takes.
use frame_processor.Base.{
  ℕ, zero, suc, ◌-◌, ◌≡◌, refl, ◌∙◌, ℤ, pos, pos_part, ltb_ℤ, true, false, ◌&&◌, List, [], ◌∷◌,
  ◌++◌, Option, none, some, Text, codes, ◌>>=◌, is_empty, length, length-append, take, append_assoc,
  append-nil, if◌then◌else◌, arith, All, Bool-cases, inl, inr, if_both, All-take, Option-cases, leb,
  tests,
}
use frame_processor.Types.{StreamConfig, GlobalConfig}
use frame_processor.Config.State.{ConfigManager}
use frame_processor.Config.Scaling.{owns_stream, is_stream_whitelisted}
use frame_processor.Config.Json.{Simdjson}
use frame_processor.Config.Parse.{
  parse_stream, is_full, take_stream, take_streams, global_config, parse_config_json,
}

-- At most `max_streams` of a list, or all of it if that is not positive.
abbrev pub limited : ConfigManager → List StreamConfig → List StreamConfig
limited m cs = if ltb_ℤ (pos 0) m.max_streams then take (pos_part m.max_streams) cs else cs

-- A stream that this instance may take.
pub record IsTaken (m : ConfigManager) (c : StreamConfig) : Type 0 where
  pub whitelisted : is_stream_whitelisted m c.id ≡ true
  pub owned : owns_stream m c.id ≡ true
  pub reachable : is_empty c.url ≡ false

take_nil : (n : ℕ) → take n (let cs : List StreamConfig = [] in cs) ≡ []
take_nil zero = refl
take_nil (suc n) = refl

module _ (json : Simdjson) (m : ConfigManager) where
  open json use {Element, parse, at_key, get_int64, get_array}

  -- What an element gives, were there no limit.
  pub candidate : Element → Option StreamConfig
  candidate e = elim (at_key e (codes "id") >>= get_int64) [
    | none ↦ none
    | some id ↦
        if is_stream_whitelisted m id && owns_stream m id then parse_stream json e id else none
  ]

  -- The streams that the elements give, in their order.
  pub candidates : List Element → List StreamConfig
  candidates [] = []
  candidates (e ∷ es) = elim (candidate e) [ none ↦ candidates es | some c ↦ c ∷ candidates es ]

  take_stream-candidate :
      (taken : List StreamConfig) (e : Element)
      → take_stream json m taken e ≡ elim (candidate e) [
        | none ↦ taken
        | some c ↦ if is_full m taken then taken else taken ++ c ∷ []
      ]
  unfolding take_stream candidate
  take_stream-candidate taken e = ground arith

  candidates-none :
      (e : Element) (es : List Element) → candidate e ≡ none → candidates (e ∷ es) ≡ candidates es
  unfolding candidates
  candidates-none e es n = rw (n, candidates)

  candidates-some :
      (e : Element) (es : List Element) (c : StreamConfig)
      → candidate e ≡ some c
      → candidates (e ∷ es) ≡ c ∷ candidates es
  unfolding candidates
  candidates-some e es c n = rw (n, candidates)

  candidates_nil : (es : List Element) → es ≡ [] → candidates es ≡ []
  unfolding candidates
  candidates_nil es n = rw n

  -- The loop without a limit.
  take_streams_unlimited :
      (taken : List StreamConfig) (es : List Element)
      → ltb_ℤ (pos 0) m.max_streams ≡ false
      → take_streams json m taken es ≡ taken ++ candidates es
  unfolding take_streams is_full
  take_streams_unlimited taken [] h = rw (candidates_nil [] refl, append-nil)
  take_streams_unlimited taken (e ∷ es) h = elim (Option-cases (candidate e)) [
    | inl n ↦
        rw (take_stream-candidate taken e, n, candidates-none e es n)
          (take_streams_unlimited taken es h)
    | inr (c, n) ↦
        rw (take_stream-candidate taken e, n, is_full, h, candidates-some e es c n)
          (take_streams_unlimited (taken ++ c ∷ []) es h
            ∙ append_assoc taken (c ∷ []) (candidates es))
  ]

  -- The loop with a limit takes what there is room for.
  take_streams_limited :
      (taken : List StreamConfig) (es : List Element)
      → ltb_ℤ (pos 0) m.max_streams ≡ true
      → take_streams json m taken es
        ≡ taken ++ take (pos_part m.max_streams - length taken) (candidates es)
  unfolding take_streams is_full
  take_streams_limited taken [] h =
      rw (candidates_nil [] refl, take_nil (pos_part m.max_streams - length taken), append-nil)
  take_streams_limited taken (e ∷ es) h = elim (Option-cases (candidate e)) [
    | inl n ↦
        rw (take_stream-candidate taken e, n, candidates-none e es n)
          (take_streams_limited taken es h)
    | inr (c, n) ↦
        rw (take_stream-candidate taken e, n, is_full, h, candidates-some e es c n)
          (elim (Bool-cases (leb k (length taken))) [
            | inl full ↦
                let none_left : k - length taken ≡ 0 = omega tests in
                rw full (take_streams_limited taken es h ∙ rw none_left)
            | inr free ↦
                let room : k - length taken ≡ suc (k - length taken - 1) = ground arith in
                let less : k - length (taken ++ c ∷ []) ≡ k - length taken - 1 =
                  omega (arith, length-append taken (c ∷ [])) in
                rw (free, room)
                  (take_streams_limited (taken ++ c ∷ []) es h
                    ∙ rw less
                        (append_assoc taken (c ∷ []) (take (k - length taken - 1) (candidates es))))
          ])
  ]
    where
      k : ℕ
      k = pos_part m.max_streams

  -- The loop takes the first streams that the elements give, as many as the limit allows.
  take_streams-candidates :
      (es : List Element) → take_streams json m [] es ≡ limited m (candidates es)
  take_streams-candidates es = elim (Bool-cases (ltb_ℤ (pos 0) m.max_streams)) [
    | inl h ↦
        let whole : pos_part m.max_streams - 0 ≡ pos_part m.max_streams = omega arith in
        rw h (take_streams_limited [] es h ∙ rw whole)
    | inr h ↦ rw h (take_streams_unlimited [] es h)
  ]

  parse_stream-IsTaken :
      (e : Element) (id : ℤ) (c : StreamConfig)
      → is_stream_whitelisted m id ≡ true
      → owns_stream m id ≡ true
      → parse_stream json e id ≡ some c
      → IsTaken m c
  unfolding parse_stream
  parse_stream-IsTaken e id c w o h = ground arith

  candidate-IsTaken : (e : Element) (c : StreamConfig) → candidate e ≡ some c → IsTaken m c
  unfolding candidate
  candidate-IsTaken e c h = of_id (at_key e (codes "id") >>= get_int64) h
    where
      of_id :
          (o : Option ℤ)
          → elim o as (λ o. Option StreamConfig) [
            | none ↦ none
            | some id ↦
                if is_stream_whitelisted m id && owns_stream m id
                then parse_stream json e id
                else none
          ]
            ≡ some c
          → IsTaken m c
      of_id none h = cc
      of_id (some id) h = ground (arith, parse_stream-IsTaken e id c)

  candidates-IsTaken : (es : List Element) → All (IsTaken m) (candidates es)
  unfolding candidates
  candidates-IsTaken [] = tt
  candidates-IsTaken (e ∷ es) = elim (Option-cases (candidate e)) [
    | inl n ↦ rw (candidates-none e es n) (candidates-IsTaken es)
    | inr (c, n) ↦ rw (candidates-some e es c n) (candidate-IsTaken e c n, candidates-IsTaken es)
  ]

  limited-IsTaken : (cs : List StreamConfig) → All (IsTaken m) cs → All (IsTaken m) (limited m cs)
  limited-IsTaken cs h =
      if_both (All (IsTaken m)) (ltb_ℤ (pos 0) m.max_streams)
        (All-take (IsTaken m) (pos_part m.max_streams) cs h) h

  -- A file that parses to a document with an array of streams gives a configuration, whose streams
  -- are the first ones of the file that are whitelisted, owned by this instance and have a url, as
  -- many as the limit allows, and in the order of the file.
  pub parse_config_json-candidates :
      (file : Option Text) (doc : Element) (es : List Element)
      → (file >>= parse) ≡ some doc
      → (at_key doc (codes "streams") >>= get_array) ≡ some es
      → (c : GlobalConfig) × (parse_config_json json m file ≡ some c)
        × (c.stream_configs ≡ limited m (candidates es))
        × All (IsTaken m) c.stream_configs
  unfolding parse_config_json global_config
  parse_config_json-candidates file doc es h k =
      let chosen = take_streams-candidates es in
      (
        global_config json m doc es,
        rw (h, k),
        chosen,
        rw chosen (limited-IsTaken (candidates es) (candidates-IsTaken es)),
      )
