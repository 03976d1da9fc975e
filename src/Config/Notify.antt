-- ===== src/Config/Notify.antt =====
-- config_manager.cpp, `reloader_loop`: what the callback is told, over any number of rounds.
use frame_processor.Base.{
  ◌≡◌, refl, sym, ◌∙◌, ap, true, false, ◌⊎◌, inl, inr, List, [], ◌∷◌, ◌++◌, append_assoc,
  append-nil, none, some, Option-cases, Bool-cases, if_both, Text, codes, is_empty, ◌>>=◌,
}
use frame_processor.Types.{GlobalConfig, global_eq}
use frame_processor.Config.Json.{Simdjson}
use frame_processor.Config.Parse.{parse_config_json, global_config}
use frame_processor.Config.Merge.{
  Merge, returns, throws, update_local_config_from_api, merge_documents,
}
use frame_processor.Config.Reload.{
  Reloader, Round, Outcome, continues, stopped, terminated, reload, reload_round, reloader_loop,
  poll_api,
}

-- Each configuration differs from the one before it, and the last is the current one.
abbrev pub IsChain : GlobalConfig → List GlobalConfig → GlobalConfig → Type 0
IsChain c [] last = (c ≡ last)
IsChain c (x ∷ xs) last = (global_eq c x ≡ false) × IsChain x xs last

IsChain-append :
    (a b c : GlobalConfig) (xs ys : List GlobalConfig)
    → IsChain a xs b
    → IsChain b ys c
    → IsChain a (xs ++ ys) c
IsChain-append a b c [] ys h k = rw h k
IsChain-append a b c (x ∷ xs) ys (p, h) k = (p, IsChain-append x b c xs ys h k)

-- What is added to the announcements leads from the one current configuration to the other.
abbrev pub Announces : Reloader → Reloader → Type 0
Announces r r' =
    (new : List GlobalConfig) × (r'.notified ≡ r.notified ++ new)
    × IsChain r.manager.current_config new r'.manager.current_config

Announces-refl : (r : Reloader) → Announces r r
Announces-refl r = ([], sym (append-nil r.notified), refl)

Announces-trans : (a b c : Reloader) → Announces a b → Announces b c → Announces a c
Announces-trans a b c (xs, h, p) (ys, k, q) = (
  xs ++ ys,
  k ∙ ap (λ l. l ++ ys) h ∙ append_assoc a.notified xs ys,
  IsChain-append a.manager.current_config b.manager.current_config c.manager.current_config xs ys p
      q,
)

-- The reloader that a loop leaves behind.
abbrev pub left_by : Outcome → Reloader
left_by (continues r) = r
left_by (stopped r) = r
left_by (terminated r) = r

module _ (json : Simdjson) where
  reload-Announces : (r : Reloader) → Announces r (reload json r)
  unfolding reload
  reload-Announces r = elim (Option-cases (parse_config_json json r.manager r.disk.config_file)) [
    | inl n ↦ rw (reload, n) (Announces-refl r)
    | inr (c, n) ↦ elim (Bool-cases (global_eq r.manager.current_config c)) [
      | inl s ↦ rw (reload, n, s) (Announces-refl r)
      | inr s ↦ rw (reload, n, s) (c ∷ [], refl, (s, refl))
    ]
  ]

  reload_round-Announces :
      (e : Round) (r : Reloader) → Announces r (left_by (reload_round json e r))
  unfolding reload_round
  reload_round-Announces e r =
      if_both (λ o. Announces r (left_by o)) e.stop_requested (Announces-refl r)
        (of_merge (poll_api json e r))
    where
      of_merge :
          (m : Merge)
          → Announces r (
              left_by (elim m as (λ m. Outcome) [
                | throws ↦ terminated r
                | returns done d ↦ continues (reload json (record r { disk = d }))
              ]))
      of_merge throws = Announces-refl r
      of_merge (returns done d) = reload-Announces (record r { disk = d })

  -- Over any rounds, what the callback is told is added to what it was told before: each
  -- configuration differs from the one that was current before it, and the last one told is the
  -- current one at the end, also if the loop is left or ended by an exception.
  pub reloader_loop-Announces :
      (es : List Round) (r : Reloader) → Announces r (left_by (reloader_loop json es r))
  unfolding reloader_loop
  reloader_loop-Announces [] r = Announces-refl r
  reloader_loop-Announces (e ∷ es) r =
      of_outcome (reloader_loop-Announces es) (reload_round json e r) (reload_round-Announces e r)
    where
      of_outcome :
          ((r' : Reloader) → Announces r' (left_by (reloader_loop json es r')))
          → (o : Outcome) → Announces r (left_by o)
          → Announces r (
              left_by (elim o as (λ o. Outcome) [
                | continues r' ↦ reloader_loop json es r'
                | stopped r' ↦ stopped r'
                | terminated r' ↦ terminated r'
              ]))
      of_outcome later (continues r') h =
          Announces-trans r r' (left_by (reloader_loop json es r')) h (later r')
      of_outcome later (stopped r') h = h
      of_outcome later (terminated r') h = h

  -- After a reload the current configuration is that of the file, or equal to it by the program's
  -- comparison, or the file does not parse and nothing is changed.
  pub reload-synced :
      (r : Reloader)
      → ((c : GlobalConfig) × (parse_config_json json r.manager r.disk.config_file ≡ some c)
          × (((reload json r).manager.current_config ≡ c)
              ⊎ (global_eq (reload json r).manager.current_config c ≡ true)))
        ⊎ ((parse_config_json json r.manager r.disk.config_file ≡ none) × (reload json r ≡ r))
  unfolding reload
  reload-synced r = elim (Option-cases (parse_config_json json r.manager r.disk.config_file)) [
    | inl n ↦ inr (n, rw (reload, n) refl)
    | inr (c, n) ↦ elim (Bool-cases (global_eq r.manager.current_config c)) [
      | inl s ↦ inl (c, n, rw (reload, n, s) (inr s))
      | inr s ↦ inl (c, n, rw (reload, n, s) (inl refl))
    ]
  ]

  -- A local file without global settings that the parser accepts ends the process in the next round
  -- with an answer of the remote interface that is JSON, whatever the answer says.
  pub reload_round-terminates :
      (e : Round)
      → (r : Reloader) → (answer : Text) → (api doc : json.Element) → (es : List json.Element)
      → e.stop_requested ≡ false
      → is_empty r.manager.api_url ≡ false
      → e.answer ≡ some answer
      → json.parse answer ≡ some api
      → (r.disk.config_file >>= json.parse) ≡ some doc
      → (json.at_key doc (codes "streams") >>= json.get_array) ≡ some es
      → json.at_key doc (codes "global_settings") ≡ none
      → (parse_config_json json r.manager r.disk.config_file
          ≡ some (global_config json r.manager doc es))
        × (reload_round json e r ≡ terminated r)
  unfolding reload_round poll_api update_local_config_from_api merge_documents parse_config_json
  reload_round-terminates e r answer api doc es s u a p f g m =
      let thrown : update_local_config_from_api json e.writing answer r.disk ≡ throws =
        rw (update_local_config_from_api, p, f, merge_documents, m) refl in
      let polled : poll_api json e r ≡ throws = rw (poll_api, u, a) thrown in
      (rw (f, g) refl, rw (reload_round, s) (rw polled refl))
