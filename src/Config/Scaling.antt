-- ===== src/Config/Scaling.antt =====
-- config_manager.h, lines 87 to 105: the streams that an instance takes.
use native.Mathlib.Nat.{mod-eq_of_lt}
use frame_processor.Base.{
  ◌≢◌, ℕ, suc, ◌%◌, ◌<◌, ◌≡◌, ◌↔◌, ℤ, pos, negsuc, pos_part, leb_ℤ, eqb_ℤ, int_mod, Bool, true,
  false, if◌then◌else◌, arith,
}
use frame_processor.Types.{member}
use frame_processor.Config.State.{ConfigManager}

-- The remainders are computed in `long long` and in `int`; the divisor is above one.
unfoldable pub owns_stream : ConfigManager → ℤ → Bool
owns_stream m stream_id =
    if leb_ℤ m.total_instances (pos 1)
    then true
    else eqb_ℤ (int_mod stream_id (pos_part m.total_instances))
        (int_mod m.instance_slot (pos_part m.total_instances))

unfoldable pub is_stream_whitelisted : ConfigManager → ℤ → Bool
is_stream_whitelisted m stream_id =
    if m.has_stream_whitelist then member stream_id m.stream_id_whitelist else true

-- The instance at slot `s` of `n`.
abbrev pub at_slot : ConfigManager → ℕ → ℕ → ConfigManager
at_slot m s n = record m { instance_slot = pos s; total_instances = pos n }

-- Of several instances, the one at slot `id % n` and no other owns a stream with an id that is not
-- negative.
pub owns_stream_iff :
    (m : ConfigManager) (n s id : ℕ)
    → 1 < n
    → s < n
    → (owns_stream (at_slot m s n) (pos id) ≡ true) ↔ (s ≡ id % n)
unfolding owns_stream
owns_stream_iff m n s id hn hs = ground (arith, mod-eq_of_lt {n = s} {m = n} hs)

-- Of several instances, none owns a stream with a negative id that the number of instances does not
-- divide, whatever their slots.
owns_stream-negative :
    (m : ConfigManager) (n s k : ℕ)
    → 1 < n
    → suc k % n ≢ 0
    → owns_stream (at_slot m s n) (negsuc k) ≡ false
unfolding owns_stream
owns_stream-negative m n s k hn hk = ground arith
