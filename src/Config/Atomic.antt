-- ===== src/Config/Atomic.antt =====
-- What a merge leaves in the configuration file.
use frame_processor.Base.{
  ◌≡◌, refl, subst, Bool, true, ◌⊎◌, inl, inr, ◌||◌, Option, none, some, Text, codes, ◌>>=◌, take,
  Option-cases, Bool-cases, arith, if_both,
}
use frame_processor.Config.Json.{Simdjson, or_else}
use frame_processor.Config.Merge.{
  Disk, Writing, Merge, returns, throws, write_config, merged_text, merge_documents,
  update_local_config_from_api, is_some,
}

-- The file is as before, or the call succeeded and the file holds what was stored of the text.
abbrev pub IsWritten : Writing → Text → Disk → Bool → Disk → Type 0
IsWritten w text d done d' =
    (d'.config_file ≡ d.config_file)
    ⊎ ((done ≡ true) × (d'.config_file ≡ some (take w.stored text)))

write_config-IsWritten :
    (w : Writing) (text : Text) (d : Disk)
    → IsWritten w text d (write_config w text d).0 (write_config w text d).1
unfolding write_config
write_config-IsWritten w text d = elim (Bool-cases w.opens) [
  | inl o ↦ elim (Bool-cases w.renames) [
    | inl r ↦ rw (o, r) (inr (refl, refl))
    | inr r ↦ rw (o, r) (inl refl)
  ]
  | inr o ↦ rw o (inl refl)
]

-- What holds of a merge if it returns.
abbrev pub Returning : (Bool → Disk → Type 0) → Merge → Type 0
Returning P (returns done d') = P done d'
Returning P throws = Unit

Returning-map :
    {P Q : Bool → Disk → Type 0}
    → ((done : Bool) (d' : Disk) → P done d' → Q done d')
    → (m : Merge) → Returning P m
    → Returning Q m
Returning-map f (returns done d') p = f done d' p
Returning-map f throws p = tt

module _ (json : Simdjson) (w : Writing) where
  open json use {Element, parse, at_key, overwritten}

  -- The member of the answer, or else that of the file.
  abbrev pub newest : Element → Element → Text → Option Element
  newest api local key = elim (at_key api key) [ none ↦ at_key local key | some e ↦ some e ]

  -- A text that consists of the newest settings and streams.
  abbrev pub IsMerged : Element → Element → Text → Type 0
  IsMerged api local text =
      (settings : Element) × (streams : Element) × (newest api local (codes "global_settings")
        ≡ some settings)
      × (newest api local (codes "streams") ≡ some streams)
      × (text ≡ merged_text json settings streams)

  newest-or_else :
      (api local e : Element) (key : Text)
      → at_key local key ≡ some e
      → newest api local key ≡ some (or_else (at_key api key) e)
  newest-or_else api local e key h = ground arith

  -- A merge that returns leaves the file as it was, or a merged document.
  abbrev pub LeavesMerged : Element → Element → Disk → Bool → Disk → Type 0
  LeavesMerged api local d done d' =
      (d'.config_file ≡ d.config_file)
      ⊎ ((done ≡ true)
          × (text : Text) × IsMerged api local text
          × (d'.config_file ≡ some (take w.stored text)))

  -- The document is written.
  write_merged :
      (api local settings streams : Element) (d : Disk)
      → at_key local (codes "global_settings") ≡ some settings
      → at_key local (codes "streams") ≡ some streams
      → (let (done, d') =
            write_config w
              (merged_text json
                (or_else (at_key api (codes "global_settings")) settings)
                (or_else (at_key api (codes "streams")) streams))
              d in
          LeavesMerged api local d done d')
  write_merged api local settings streams d h k =
      let text =
        merged_text json (or_else (at_key api (codes "global_settings")) settings)
          (or_else (at_key api (codes "streams")) streams) in
      elim (write_config-IsWritten w text d) [
        | inl same ↦ inl same
        | inr (done, file) ↦ inr (
          done,
          text,
          (
            or_else (at_key api (codes "global_settings")) settings,
            or_else (at_key api (codes "streams")) streams,
            newest-or_else api local settings (codes "global_settings") h,
            newest-or_else api local streams (codes "streams") k,
            refl,
          ),
          file,
        )
      ]

  merge_documents-Leaves :
      (api local : Element) (d : Disk)
      → Returning (LeavesMerged api local d) (merge_documents json w api local d)
  unfolding merge_documents
  merge_documents-Leaves api local d =
      elim (Option-cases (at_key local (codes "global_settings"))) [
        | inl n ↦ rw (merge_documents, n) tt
        | inr (settings, n) ↦ elim (Option-cases (at_key local (codes "streams"))) [
          | inl k ↦ rw (merge_documents, n, k) tt
          | inr (streams, k) ↦
              rw (merge_documents, n, k)
                (if_both (Returning (LeavesMerged api local d))
                  (is_some (at_key api (codes "global_settings"))
                    || is_some (at_key api (codes "streams")))
                  (write_merged api local settings streams d n k) (inl refl))
        ]
      ]

  -- What a call with this answer leaves on the disk.
  abbrev pub LeavesAnswer : Text → Disk → Bool → Disk → Type 0
  LeavesAnswer answer d done d' =
      (d'.config_file ≡ d.config_file)
      ⊎ ((done ≡ true)
          × (api : Element) × (local : Element) × (text : Text) × (parse answer ≡ some api)
          × ((d.config_file >>= parse) ≡ some local)
          × IsMerged (overwritten api local) local text
          × (d'.config_file ≡ some (take w.stored text)))

  update_local_config-Returning :
      (answer : Text) (d : Disk)
      → Returning (LeavesAnswer answer d) (update_local_config_from_api json w answer d)
  unfolding update_local_config_from_api
  update_local_config-Returning answer d = elim (Option-cases (parse answer)) [
    | inl n ↦ rw (update_local_config_from_api, n) (inl refl)
    | inr (api, n) ↦ elim (Option-cases (d.config_file >>= parse)) [
      | inl k ↦ rw (update_local_config_from_api, n, k) (inl refl)
      | inr (local, k) ↦
          rw (update_local_config_from_api, n, k)
            (Returning-map
              (λ done d' p. elim p [
                | inl same ↦ inl same
                | inr (finished, text, merged, file) ↦
                    inr (finished, api, local, text, n, k, merged, file)
              ])
              (merge_documents json w (overwritten api local) local d)
              (merge_documents-Leaves (overwritten api local) local d))
    ]
  ]

  -- If a merge returns, then the file is as it was, or the merge reports success and the file holds
  -- as many bytes as were stored of a document made of the settings and the streams that the answer's
  -- document has after the parser has loaded the file, with those of the file where it has none.
  pub update_local_config-atomic :
      (answer : Text) (d : Disk) (done : Bool) (d' : Disk)
      → update_local_config_from_api json w answer d ≡ returns done d'
      → LeavesAnswer answer d done d'
  unfolding update_local_config_from_api
  update_local_config-atomic answer d done d' h =
      subst (Returning (LeavesAnswer answer d)) h (update_local_config-Returning answer d)
