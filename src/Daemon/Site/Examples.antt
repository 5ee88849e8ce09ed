-- ===== src/Daemon/Site/Examples.antt =====
-- The theorems on the daemon with its directory at concrete files and calls.
use garwarp.Base.{
  ◌≡◌, refl, Option, none, some, true, [], ◌∷◌, List, Text, codes, ok, err, split, split_once,
  text_eq, trim, is_whitespace,
}
use garwarp.Base.Digits.{show_radix}
use garwarp.Base.Map.{get, insert}
use garwarp.Base.Files.{File, text, Directory}
use garwarp.Request.Types.{Instant, failed}
use garwarp.Request.Types
use garwarp.Window.{parse_optional_parent_window}
use garwarp.Request.{RequestRegistry, restore_record, new}
use garwarp.Store.{
  body, load_registry, invalid_data, lines, parse_record_line, parse_fields, required_field,
  optional_field,
}
use garwarp.Store.Loaded.{IsSound, load_registry-IsSound}
use garwarp.Store.Files.{Writing, unique_temp_name, atomic_write}
use garwarp.Store.Files.Atomic.{IsAtomic, atomic_write-IsAtomic}
use garwarp.Daemon.State.{load_registry_with_recovery}
use garwarp.Daemon.Connection.{Incoming}
use garwarp.Daemon.Round.{run_loop}
use garwarp.Daemon.Examples.{serving, begins_one}
use garwarp.Daemon.Site.{Site, store_file, quarantined_name, Starting, start_in}
use garwarp.Daemon.Site.Loop.{Happenings, run_loop_in}
use garwarp.Daemon.Site.Loop.Refines.{all_events, run_loop_in-refines}
use garwarp.Daemon.Site.Refines.{seen}
use garwarp.Daemon.Site.Reloads.{Reloads}
use garwarp.Daemon.Site.Started.{serves-Reloads}
use garwarp.Daemon.Site.Kept.{serves-keeps}

abbrev pub store_name : Text
store_name = codes "requests.state"

abbrev pub whole : Writing
whole = record {
  pid = 7;
  nanos = 9;
  made_directory = true;
  created = true;
  permitted = true;
  torn = none;
  synced = true;
  renamed = true;
}

-- The disk is full in the middle of a line.
abbrev torn_write : Writing
torn_write = record whole { torn = some (text (codes "id=req")) }

abbrev junk : File
junk = text (codes "junk\n")

abbrev pub with_junk : Directory
with_junk = (store_name, junk) ∷ []

abbrev pub starting : Starting
starting = record {
  readable = true;
  loaded_at = 1;
  recovered_at = 2;
  renamed = true;
  nanos = 5;
  writing = torn_write;
}

abbrev pub happening : Option Incoming → Happenings
happening accepted = record {
  expired_at = 31;
  pruned_at = 32;
  expired_write = whole;
  pruned_write = torn_write;
  accepted = accepted;
  replied = true;
  reply_write = torn_write;
}

abbrev happenings : List Happenings
happenings = happening (some begins_one) ∷ happening none ∷ []

junk_refused :
    load_registry_with_recovery (store_file true (some junk)) 10 1 2
    ≡ err (invalid_data (codes "invalid request store line 1: invalid token: junk"))
unfolding load_registry_with_recovery store_file load_registry lines split trim is_whitespace
    text_eq parse_record_line parse_fields split_once show_radix
junk_refused = refl

atomic_write-IsAtomic_example :
    IsAtomic
      (unique_temp_name store_name torn_write)
      store_name
      (codes "id=a\n")
      with_junk
      (atomic_write torn_write store_name (codes "id=a\n") with_junk)
atomic_write-IsAtomic_example =
    atomic_write-IsAtomic torn_write store_name (codes "id=a\n") with_junk

serves-Reloads_example : Reloads (
    get store_name
      (run_loop_in store_name 1000 5 happenings (start_in store_name starting 10 with_junk)).files)
serves-Reloads_example = serves-Reloads store_name starting 10 5 with_junk 1000 happenings refl

serves-keeps_example :
    get
      (quarantined_name store_name 5)
      (run_loop_in store_name 1000 5 happenings (start_in store_name starting 10 with_junk)).files
    ≡ some junk
unfolding get text_eq
serves-keeps_example =
    serves-keeps store_name starting 10 5 with_junk 1000 happenings junk
      (invalid_data (codes "invalid request store line 1: invalid token: junk")) refl refl
      junk_refused

abbrev site : Site
site = record { daemon = serving; files = with_junk }

run_loop_in-refines_example :
    seen store_name (run_loop_in store_name 1000 5 happenings site)
    ≡ run_loop 1000 5 (all_events store_name 1000 5 happenings site) (seen store_name site)
run_loop_in-refines_example = run_loop_in-refines store_name 1000 5 happenings site

-- An id that a client could not give, as in a store written by hand.
abbrev by_hand : Text
by_hand = codes "id=a b\tsender=:1.2\tstate=failed\n"

abbrev from_hand : RequestRegistry
from_hand = record {
  entries =
      (
        codes "a b",
        record {
          id = codes "a b";
          owner = record { sender = codes ":1.2"; app_id = none };
          parent_window = none;
          state = failed;
          started_at = 1;
          last_updated_at = 1;
        },
      )
      ∷ [];
  timeout = 10;
}

by_hand_accepted : load_registry (body by_hand) 10 1 ≡ ok from_hand
unfolding load_registry lines split trim is_whitespace text_eq parse_record_line parse_fields
    split_once get insert required_field parse_optional_parent_window optional_field Types.parse
    restore_record new
by_hand_accepted = refl

load_registry-IsSound_example : IsSound from_hand
load_registry-IsSound_example = load_registry-IsSound (body by_hand) 10 1 from_hand by_hand_accepted
