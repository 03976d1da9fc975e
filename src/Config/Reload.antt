-- ===== src/Config/Reload.antt =====
-- config_manager.cpp: the initial load, the start of the reloader and the rounds of its loop.
use frame_processor.Base.{
  Bool, true, false, List, [], ◌∷◌, ◌++◌, Option, none, some, Text, is_empty, if◌then◌else◌,
}
use frame_processor.Types.{GlobalConfig, global_eq}
use frame_processor.Config.State.{ConfigManager}
use frame_processor.Config.Json.{Simdjson}
use frame_processor.Config.Parse.{parse_config_json}
use frame_processor.Config.Merge.{
  Disk, Writing, Merge, returns, throws, update_local_config_from_api,
}

-- The manager, the disk and the configurations that the callback has been given.
pub record Reloader : Type 0 where
  pub manager : ConfigManager
  pub disk : Disk
  pub notified : List GlobalConfig

-- What the surroundings do in a round: a stop request seen after the wait, the answer of the remote
-- interface (`none` if `fetch_config_from_api` fails), and what the file system does.
pub record Round : Type 0 where
  pub stop_requested : Bool
  pub answer : Option Text
  pub writing : Writing

-- How a round ends: the loop goes on, it is left, or an exception leaves the thread and the process
-- is terminated.
pub data Outcome : Type 0 where
  continues stopped terminated : Reloader → Outcome

module _ (json : Simdjson) where
  unfoldable pub load_initial_config : Reloader → Bool × Reloader
  load_initial_config r = elim (parse_config_json json r.manager r.disk.config_file) [
    | none ↦ (false, r)
    | some c ↦ (true, record r { manager = record r.manager { current_config = c } })
  ]

  -- The callback is given the initial configuration; then the thread starts.
  unfoldable pub start_reloader : Reloader → Reloader
  start_reloader r = record r { notified = r.notified ++ r.manager.current_config ∷ [] }

  -- Step 1: the answer, if there is an address and an answer, is merged into the file.
  unfoldable pub poll_api : Round → Reloader → Merge
  poll_api e r = if is_empty r.manager.api_url then returns true r.disk else elim e.answer [
    | none ↦ returns true r.disk
    | some text ↦ update_local_config_from_api json e.writing text r.disk
  ]

  -- Steps 2 and 3: the file is read, and a configuration that differs is stored and announced.
  unfoldable pub reload : Reloader → Reloader
  reload r = elim (parse_config_json json r.manager r.disk.config_file) [
    | none ↦ r
    | some c ↦ if global_eq r.manager.current_config c then r else record r {
      manager = record r.manager { current_config = c };
      notified = r.notified ++ c ∷ [];
    }
  ]

  -- A round of the loop, from its wait on.
  unfoldable pub reload_round : Round → Reloader → Outcome
  reload_round e r = if e.stop_requested then stopped r else elim (poll_api e r) [
    | throws ↦ terminated r
    | returns done d ↦ continues (reload (record r { disk = d }))
  ]

  unfoldable pub reloader_loop : List Round → Reloader → Outcome
  reloader_loop [] r = continues r
  reloader_loop (e ∷ es) r = elim (reload_round e r) [
    | continues r' ↦ reloader_loop es r'
    | stopped r' ↦ stopped r'
    | terminated r' ↦ terminated r'
  ]
