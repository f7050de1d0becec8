-- ===== src/Lease/Examples.antt =====
-- Runs of the lease functions on two processes that share one device.
use stayturgid.Base.{ℕ, ◌≡◌, ◌≢◌, refl, true, false, none, some, List, [], ◌∷◌, arith, Text, codes}
use stayturgid.Lease.Key.{device_key, lease_path}
use stayturgid.Lease.Env.{Env, project_id}
use stayturgid.Lease.Store.{
  Lease, Files, put, read, is_active, list_leases, first_match, find_active_lease, all_spellings,
  lease_device_ids, holder_project, holder_session, ours,
}
use stayturgid.Lease.Store.Laws.{IsOrdered}
use stayturgid.Lease.Write.{
  Request, distinct_ids, build_lease, write_keys, write_targets, write_lease_all_keys,
}
use stayturgid.Lease.Acquire.{settled, may_renew, acquired, conflict, attempt, acquire}
use stayturgid.Lease.Acquire.Waiting.{acquire_terminates}
use stayturgid.Lease.Acquire.Exclusive.{acquire_holds, mutual_exclusion}
use stayturgid.Lease.Acquire.Renewal.{attempt-IsOrdered, renewal_overwrites}
use stayturgid.Lease.Release.{release}
use stayturgid.Lease.Release.Clears.{release_keeps_foreign}

abbrev phone : Text
phone = codes "p9"

abbrev env_of : Text → ℕ → Env
env_of project pid = record {
  screen_project = project;
  stayturgid_project = [];
  screen_agent = [];
  stayturgid_agent = [];
  screen_force = [];
  stayturgid_force = [];
  pid = pid;
  hostname = codes "hub";
  fresh_id = codes "f0";
}

abbrev request_of : Text → List Text → Request
request_of device ids = record {
  device = device;
  device_ids = ids;
  purpose = codes "test";
  agent = [];
  project = [];
  session_id = codes "s1";
  ttl_sec = 60;
}

abbrev env_a : Env
env_a = env_of [] 11

abbrev env_b : Env
env_b = env_of (codes "other") 22

abbrev request : Request
request = request_of phone []

-- The lease of `env_a`, and the files that its attempt leaves in an empty directory.
abbrev lease_a : Lease
lease_a = build_lease env_a (settled env_a request) 100000

abbrev files_a : Files
files_a = write_lease_all_keys lease_a phone none []

-- A lease of `env_b` on another device, written by it at the same time.
abbrev tablet : Text
tablet = codes "t5"

abbrev lease_b : Lease
lease_b = build_lease env_b (settled env_b (request_of tablet [])) 100000

abbrev files_ab : Files
files_ab = write_lease_all_keys lease_b tablet none files_a

free_a : find_active_lease (phone ∷ []) 100000 [] ≡ none
unfolding find_active_lease
free_a = refl

attempt_a : attempt env_a request false 0 100000 [] ≡ some (acquired lease_a files_a)
unfolding attempt find_active_lease
attempt_a = refl

held_a : find_active_lease (phone ∷ []) 101000 files_a ≡ some (lease_path phone, lease_a)
unfolding find_active_lease first_match list_leases write_lease_all_keys write_keys write_targets
    put build_lease distinct_ids is_active lease_device_ids all_spellings lease_path device_key
held_a = refl

foreign_a : may_renew env_b request lease_a ≡ false
unfolding may_renew ours holder_project holder_session build_lease project_id
foreign_a = refl

own_a : may_renew env_a request lease_a ≡ true
unfolding may_renew ours holder_project holder_session build_lease project_id
own_a = refl

acquire_terminates_example :
    acquire env_b request false 1000 101000 ((101000, files_a) ∷ (102000, files_a) ∷ []) ≢ none
acquire_terminates_example =
    acquire_terminates env_b request false 1000 101000 ((101000, files_a) ∷ (102000, files_a) ∷ [])
      1 (omega arith, (omega arith, tt)) (omega arith) (omega arith)

acquire_holds_example :
    (p : Text) × (find_active_lease (phone ∷ []) 159999 files_a ≡ some (p, lease_a))
unfolding build_lease
acquire_holds_example =
    acquire_holds env_a request false 0 100000 159999 [] refl free_a attempt_a (omega arith)
      (omega arith)

mutual_exclusion_example :
    (l : Lease) × (acquire env_b request false 1000 101000
        ((101000, files_a) ∷ (102000, files_a) ∷ [])
      ≡ some (conflict l))
    × (may_renew env_b request l ≡ false)
unfolding build_lease
mutual_exclusion_example =
    mutual_exclusion env_a env_b request request false 0 100000 1000 101000 1 []
      ((101000, files_a) ∷ (102000, files_a) ∷ []) refl free_a attempt_a refl refl foreign_a
      ((refl, omega arith, omega arith), ((refl, omega arith, omega arith), tt))
      (omega arith, (omega arith, tt)) (omega arith) (omega arith)

-- `env_a` asks for its phone and the tablet of `env_b`.
abbrev both : Request
both = request_of phone (tablet ∷ [])

renewal_overwrites_example :
    (lease : Lease) × (s' : Files) × (attempt env_a both false 101000 101000 files_ab
      ≡ some (acquired lease s'))
    × (read (lease_path tablet) s' ≢ some (some lease_b))
unfolding find_active_lease first_match list_leases write_lease_all_keys write_keys write_targets
    put read build_lease distinct_ids is_active lease_device_ids all_spellings lease_path device_key
    may_renew ours holder_project holder_session project_id
renewal_overwrites_example =
    renewal_overwrites env_a both 101000 101000 files_ab (lease_path phone) tablet lease_a lease_b
      refl refl refl refl refl refl

tablet_file : read (lease_path tablet) files_ab ≡ some (some lease_b)
unfolding write_lease_all_keys write_keys write_targets put read build_lease distinct_ids lease_path
    device_key
tablet_file = refl

phone_file : read (lease_path phone) files_a ≡ some (some lease_a)
unfolding write_lease_all_keys write_keys write_targets put read build_lease distinct_ids lease_path
    device_key
phone_file = refl

ours_b : ours env_a [] lease_b ≡ false
unfolding ours holder_project holder_session build_lease project_id
ours_b = refl

release_keeps_foreign_example :
    read (lease_path tablet) (release env_a tablet [] false files_ab).1 ≡ some (some lease_b)
release_keeps_foreign_example =
    release_keeps_foreign env_a tablet [] files_ab (lease_path tablet) lease_b tablet_file ours_b

files_a-IsOrdered : IsOrdered files_a
files_a-IsOrdered = attempt-IsOrdered env_a request false 0 100000 [] attempt_a tt
