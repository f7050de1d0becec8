-- ===== src/Lease/Write.antt =====
-- `build_lease` and `_write_lease_all_keys` of control/lib/device_screen_lease.py.
pub mod Laws
use stayturgid.Base.{
  ℕ, ◌+◌, ◌*◌, ◌||◌, Option, none, some, List, [], ◌∷◌, ◌++◌, Text, is_empty, or_else, member,
  lower, strip, ltb, if◌then◌else◌,
}
use stayturgid.Lease.Key.{lease_path}
use stayturgid.Lease.Env.{Env, project_id, agent_id}
use stayturgid.Lease.Store.{Lease, Files, put, iso}

abbrev pub default_ttl_sec : ℕ
default_ttl_sec = 1800

-- The aliases stripped, without the empty ones and those that differ only by case.
unfoldable pub distinct_ids : List Text → List Text → List Text
distinct_ids seen [] = []
distinct_ids seen (i ∷ ids) =
    let s = strip i in
    let skip = distinct_ids seen ids in
    let keep = s ∷ distinct_ids (lower s ∷ seen) ids in
    if is_empty s || member (lower s) seen then skip else keep

-- What a caller of `acquire` passes on to `build_lease`. Empty stands for `None`.
pub record Request : Type 0 where
  pub device : Text
  pub device_ids : List Text
  pub purpose : Text
  pub agent : Text
  pub project : Text
  pub session_id : Text
  pub ttl_sec : ℕ

unfoldable pub build_lease : Env → Request → ℕ → Lease
unfolding distinct_ids project_id agent_id
build_lease env r now =
    let ttl = if ltb 0 r.ttl_sec then r.ttl_sec else default_ttl_sec in
    record {
      device = r.device;
      device_ids = distinct_ids [] (r.device ∷ r.device_ids);
      holder = some (record {
        project = or_else r.project (project_id env);
        agent = or_else r.agent (agent_id env);
        session_id = or_else r.session_id env.fresh_id;
        pid = env.pid;
        hostname = env.hostname;
      });
      project = [];
      session_id = [];
      purpose = r.purpose;
      started_at = iso now;
      heartbeat_at = iso now;
      expires_at = some (iso (now + ttl * 1000));
      expires = 0;
      ttl_sec = ttl;
    }

-- The loop over the keys, with the set `written`.
unfoldable pub write_keys : Lease → List Text → List Text → Files → List Text × Files
write_keys l [] written s = (written, s)
write_keys l (k ∷ ks) written s =
    let p = lease_path k in
    let skip = write_keys l ks written s in
    let go = write_keys l ks (p ∷ written) (put p (some l) s) in
    if member p written then skip else go

abbrev pub nonempty : Text → List Text
nonempty k = if is_empty k then [] else k ∷ []

abbrev pub nonempties : List Text → List Text
nonempties [] = []
nonempties (k ∷ ks) = nonempty k ++ nonempties ks

-- The primary key, the device and the aliases, the empty ones left out.
unfoldable pub write_targets : Lease → Text → List Text
write_targets l primary = nonempty primary ++ (nonempty l.device ++ nonempties l.device_ids)

-- The file that the lease was found in, if no key led to it.
abbrev pub write_found : Lease → Option Text → List Text × Files → Files
write_found l none (written, s) = s
write_found l (some p) (written, s) = if member p written then s else put p (some l) s

unfoldable pub write_lease_all_keys : Lease → Text → Option Text → Files → Files
unfolding write_keys write_targets
write_lease_all_keys l primary found s =
    write_found l found (write_keys l (write_targets l primary) [] s)
