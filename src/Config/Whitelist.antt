-- ===== src/Config/Whitelist.antt =====
-- The environment of an instance, read back from the values that it was printed from.
use frame_processor.Base.{
  bind-some, ◌>>=◌, suc, ◌==◌, ◌≡◌, inl, inr, Bool-cases, eqb_ℤ_iff, refl, sym, ap, subst, ◌∙◌, ℤ,
  pos, negsuc, IsI32, IsI64, Bool, true, false, ◌||◌, List, [], ◌∷◌, ◌++◌, append_assoc, append-nil,
  Option, none, some, Text, codes, digits, decimal, is_empty, All, if◌then◌else◌, arith,
}
use frame_processor.Base.Numbers.{
  AreDigits, digits-AreDigits, starts_with_digit, starts_with_digit-digits, stoi, stoll,
  stoi-decimal, stoll-decimal,
}
use frame_processor.Base.Environment.{Environment, get_env, get_env-some}
use frame_processor.Types.{member}
use frame_processor.Config.State.{ConfigManager}
use frame_processor.Config.Scaling.{is_stream_whitelisted}
use frame_processor.Config.Environment.{
  comma, insert_id, take_id, take_ids, stream_ids, default_config, config_manager,
}

-- Ids with commas between them.
abbrev pub commas : List ℤ → Text
commas [] = []
commas (z ∷ []) = decimal z
commas (z ∷ y ∷ zs) = decimal z ++ comma ∷ commas (y ∷ zs)

AreDigits-NoComma : (xs : Text) → AreDigits xs → All (λ c. (c == comma) ≡ false) xs
AreDigits-NoComma [] a = tt
AreDigits-NoComma (x ∷ xs) (p, a) = (ground arith, AreDigits-NoComma xs a)

decimal-NoComma : (z : ℤ) → All (λ c. (c == comma) ≡ false) (decimal z)
decimal-NoComma (pos n) = AreDigits-NoComma (digits 20 n) (digits-AreDigits 20 n)
decimal-NoComma (negsuc n) =
    (refl, AreDigits-NoComma (digits 20 (suc n)) (digits-AreDigits 20 (suc n)))

is_empty-digit : (t : Text) → starts_with_digit t ≡ true → is_empty t ≡ false
is_empty-digit [] h = sym h
is_empty-digit (c ∷ t) h = refl

is_empty-decimal : (z : ℤ) → is_empty (decimal z) ≡ false
is_empty-decimal (pos n) = is_empty-digit (digits 20 n) (starts_with_digit-digits 19 n)
is_empty-decimal (negsuc n) = refl

-- Characters other than commas are collected.
take_ids-append :
    (xs rest t : Text) (ids : List ℤ)
    → All (λ c. (c == comma) ≡ false) xs
    → take_ids t (xs ++ rest) ids ≡ take_ids (t ++ xs) rest ids
unfolding take_ids
take_ids-append [] rest t ids a = rw (append-nil t) refl
take_ids-append (x ∷ xs) rest t ids (p, a) = rw p (
    take_ids-append xs rest (t ++ x ∷ []) ids a
    ∙ ap (λ u. take_ids u rest ids) (append_assoc t (x ∷ []) xs))

take_id-nonempty :
    (t : Text) (z : ℤ) (ids : List ℤ)
    → is_empty t ≡ false
    → stoll t ≡ some z
    → take_id t ids ≡ some (insert_id z ids)
unfolding take_id
take_id-nonempty t z ids e s = rw (e, s) refl

take_id-decimal :
    (z : ℤ) (ids : List ℤ) → IsI64 z → take_id (decimal z) ids ≡ some (insert_id z ids)
take_id-decimal z ids h =
    take_id-nonempty (decimal z) z ids (is_empty-decimal z) (stoll-decimal z h)

insert_ids : List ℤ → List ℤ → List ℤ
insert_ids [] ids = ids
insert_ids (z ∷ zs) ids = insert_ids zs (insert_id z ids)

take_ids-commas :
    (z : ℤ) (zs ids : List ℤ)
    → All IsI64 (z ∷ zs)
    → take_ids [] (commas (z ∷ zs)) ids ≡ some (insert_ids (z ∷ zs) ids)
unfolding take_ids insert_ids
take_ids-commas z [] ids (h, k) =
    ap (λ u. take_ids [] u ids) (sym (append-nil (decimal z)))
    ∙ take_ids-append (decimal z) [] [] ids (decimal-NoComma z)
    ∙ take_id-decimal z ids h
take_ids-commas z (y ∷ zs) ids (h, k) =
    take_ids-append (decimal z) (comma ∷ commas (y ∷ zs)) [] ids (decimal-NoComma z)
    ∙ ap (λ o. o >>= take_ids [] (commas (y ∷ zs))) (take_id-decimal z ids h)
    ∙ take_ids-commas y zs (insert_id z ids) k

member-insert_id : (i z : ℤ) (ids : List ℤ) → member i (insert_id z ids) ≡ member i (z ∷ ids)
unfolding insert_id member
member-insert_id i z ids = elim (Bool-cases (member z ids)) [
  | inl p ↦ rw p (ground (arith, eqb_ℤ_iff z i))
  | inr q ↦ rw q refl
]

member-insert_ids :
    (i : ℤ) (zs ids : List ℤ) → member i (insert_ids zs ids) ≡ member i zs || member i ids
unfolding insert_ids member
member-insert_ids i [] ids = refl
member-insert_ids i (z ∷ zs) ids =
    rw (member-insert_ids i zs (insert_id z ids), member-insert_id i z ids) (ground arith)

-- What the environment of an instance is to say.
pub record Settings : Type 0 where
  pub interval : ℤ
  pub slot : ℤ
  pub total : ℤ
  pub max : ℤ
  pub ids : List ℤ

-- Its variables are printed from the settings, the ids with commas between them.
abbrev pub IsPrinted : Environment → Settings → Type 0
IsPrinted env s =
    (env (codes "FP_CONFIG_RELOAD_INTERVAL_S") ≡ some (decimal s.interval))
    × (env (codes "FP_INSTANCE_SLOT") ≡ some (decimal s.slot))
    × (env (codes "FP_TOTAL_INSTANCES") ≡ some (decimal s.total))
    × (env (codes "FP_MAX_STREAMS") ≡ some (decimal s.max))
    × (env (codes "FP_STREAM_IDS") ≡ some (commas s.ids))

-- The settings are values of the types of the members.
abbrev pub AreInRange : Settings → Type 0
AreInRange s = IsI64 s.interval × IsI32 s.slot × IsI32 s.total × IsI32 s.max × All IsI64 s.ids

-- An empty list of ids stands for all streams.
abbrev pub wanted : List ℤ → ℤ → Bool
wanted [] id = true
wanted (z ∷ zs) id = member id (z ∷ zs)

abbrev pub HasSettings : Settings → Option ConfigManager → Type 0
HasSettings s none = ⊥
HasSettings s (some m) =
    (m.reload_interval ≡ s.interval)
    × (m.instance_slot ≡ s.slot)
    × (m.total_instances ≡ s.total)
    × (m.max_streams ≡ s.max)
    × ((id : ℤ) → is_stream_whitelisted m id ≡ wanted s.ids id)

abbrev has_ids : List ℤ → Bool
has_ids [] = false
has_ids (z ∷ zs) = true

is_empty-append : (xs ys : Text) → is_empty xs ≡ false → is_empty (xs ++ ys) ≡ false
is_empty-append [] ys h = ground arith
is_empty-append (x ∷ xs) ys h = refl

is_empty-commas : (z : ℤ) (zs : List ℤ) → is_empty (commas (z ∷ zs)) ≡ false
is_empty-commas z [] = is_empty-decimal z
is_empty-commas z (y ∷ zs) =
    is_empty-append (decimal z) (comma ∷ commas (y ∷ zs)) (is_empty-decimal z)

stream_ids-some :
    (t : Text) (ids : List ℤ)
    → is_empty t ≡ false
    → take_ids [] t [] ≡ some ids
    → stream_ids t ≡ some (true, ids)
unfolding stream_ids
stream_ids-some t ids e h = rw (e, h) refl

stream_ids-commas :
    (zs : List ℤ) → All IsI64 zs → stream_ids (commas zs) ≡ some (has_ids zs, insert_ids zs [])
unfolding stream_ids insert_ids
stream_ids-commas [] a = refl
stream_ids-commas (z ∷ zs) a =
    stream_ids-some (commas (z ∷ zs)) (insert_ids (z ∷ zs) []) (is_empty-commas z zs)
      (take_ids-commas z zs [] a)

-- The manager of these settings.
abbrev made : Environment → Settings → ConfigManager
made env s = record {
  api_url = get_env env (codes "FP_CONFIG_API_URL") [];
  reload_interval = s.interval;
  current_config = default_config;
  instance_slot = s.slot;
  total_instances = s.total;
  max_streams = s.max;
  stream_id_whitelist = insert_ids s.ids [];
  has_stream_whitelist = has_ids s.ids;
}

config_manager-made :
    (env : Environment) (s : Settings)
    → IsPrinted env s
    → AreInRange s
    → config_manager env ≡ some (made env s)
unfolding config_manager
config_manager-made env s (ei, es, et, em, el) (ri, rs, rt, rm, rl) =
    bind-some _ (
      ap stoll (
        get_env-some env (codes "FP_CONFIG_RELOAD_INTERVAL_S") (codes "60") (decimal s.interval) ei)
      ∙ stoll-decimal s.interval ri)
    ∙ bind-some _ (
        ap stoi (get_env-some env (codes "FP_INSTANCE_SLOT") (codes "0") (decimal s.slot) es)
        ∙ stoi-decimal s.slot rs)
    ∙ bind-some _ (
        ap stoi (get_env-some env (codes "FP_TOTAL_INSTANCES") (codes "1") (decimal s.total) et)
        ∙ stoi-decimal s.total rt)
    ∙ bind-some _ (
        ap stoi (get_env-some env (codes "FP_MAX_STREAMS") (codes "0") (decimal s.max) em)
        ∙ stoi-decimal s.max rm)
    ∙ bind-some _ (
        ap stream_ids (get_env-some env (codes "FP_STREAM_IDS") [] (commas s.ids) el)
        ∙ stream_ids-commas s.ids rl)

whitelisted-made :
    (env : Environment) (s : Settings) (id : ℤ)
    → is_stream_whitelisted (made env s) id ≡ wanted s.ids id
unfolding is_stream_whitelisted member
whitelisted-made env s id = of_ids s.ids
  where
    of_ids :
        (zs : List ℤ) → (if has_ids zs then member id (insert_ids zs []) else true) ≡ wanted zs id
    of_ids [] = refl
    of_ids (z ∷ zs) = member-insert_ids id (z ∷ zs) [] ∙ ground arith

-- Settings in the ranges of their types that are printed to the environment, the ids with commas
-- between them, are those of the manager made there: its numbers are the same, and its whitelist lets
-- exactly the printed ids pass, all if there are none.
pub config_manager-printed :
    (env : Environment) (s : Settings)
    → IsPrinted env s
    → AreInRange s
    → HasSettings s (config_manager env)
config_manager-printed env s p r =
    subst (HasSettings s) (sym (config_manager-made env s p r))
      (refl, refl, refl, refl, whitelisted-made env s)
