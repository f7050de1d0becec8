-- ===== src/ScreenControl/Session/Holding.antt =====
-- The lease that a session holds.

use stayturgid.Base.{
  ℕ, ◌≡◌, refl, sym, ap, ◌∙◌, Bool, true, false, none, some, List, [], ◌∷◌, arith, All, Text,
  is_empty, or_else, text_eq_refl, intersects, strip, is_space, strip_chars-strip_chars,
  Option-cases, inl, inr,
}
use stayturgid.Lease.Key.{device_key, folded, lease_path}
use stayturgid.Lease.Env.{Env, default_project, project_id}
use stayturgid.Lease.Store.{
  Lease, Files, read, ours, holder_project, holder_session, session_of, lease_device_ids,
}
use stayturgid.Lease.Store.Laws.{IsOrdered}
use stayturgid.Lease.Write.{Request, build_lease}
use stayturgid.Lease.Acquire.{acquired, Poll, settled, attempt, attempts}
use stayturgid.Lease.Acquire.Exclusive.{attempt_writes, member-write_targets}
use stayturgid.Lease.Acquire.Renewal.{acquire-read, attempt-IsOrdered}
use stayturgid.Lease.Release.Clears.{release_clears}
use stayturgid.ScreenControl.Session.{Setup, World, free, request_of}

-- The device's lease file has a lease of this project and session.
pub record Held (c : Setup) (session : Text) (files : Files) : Type 0 where
  pub lease : Lease
  pub ordered : IsOrdered files
  pub there : read (lease_path c.host) files ≡ some (some lease)
  pub names : intersects (lease_device_ids lease) (device_key c.host ∷ folded c.host ∷ []) ≡ true
  pub mine : ours c.env session lease ≡ true

-- Held leases are released.
pub free-read :
    (c : Setup) (session : Text) (w : World)
    → Held c session w.files
    → read (lease_path c.host) (free c session w).files ≡ none
free-read c session w h =
    release_clears c.env c.host session false w.files (lease_path c.host) h.lease h.ordered h.there
      h.names h.mine

pub attempts-acquired :
    (env : Env) (r : Request) (force : Bool) (deadline : ℕ) (polls : List Poll) {lease : Lease}
    {s' : Files}
    → All (λ p. IsOrdered (p.1)) polls
    → attempts env r force deadline polls ≡ some (acquired lease s')
    → (now : ℕ) × (s : Files) × IsOrdered s
      × (attempt env r force deadline now s ≡ some (acquired lease s'))
unfolding attempts
attempts-acquired env r force deadline [] o h = cc
attempts-acquired env r force deadline ((now, s) ∷ polls) o h =
    elim (Option-cases (attempt env r force deadline now s)) [
      | inl waits ↦ attempts-acquired env r force deadline polls o.1 (rw (attempts, waits) at h)
      | inr (x, ends) ↦ (now, s, o.0, ends ∙ rw (attempts, ends) at h)
    ]

strip-or_else : (s t : Text) → strip s ≡ s → strip t ≡ t → strip (or_else s t) ≡ or_else s t
strip-or_else [] t hs ht = ht
strip-or_else (c ∷ s) t hs ht = hs

strip-project_id : (env : Env) → strip (project_id env) ≡ project_id env
unfolding project_id
strip-project_id env =
    let named = or_else env.screen_project (or_else env.stayturgid_project default_project) in
    strip-or_else (strip named) default_project (strip_chars-strip_chars is_space named) refl

or_else_same : (t : Text) → or_else t t ≡ t
or_else_same [] = refl
or_else_same (c ∷ t) = refl

or_else_empty : (t : Text) → or_else t [] ≡ t
or_else_empty [] = refl
or_else_empty (c ∷ t) = refl

own-ours :
    (env : Env) (session : Text) (l : Lease)
    → holder_project l ≡ project_id env
    → holder_session l ≡ session
    → ours env session l ≡ true
unfolding ours
own-ours env session l p s =
    rw (ours, p, s, text_eq_refl (project_id env), text_eq_refl session) (ground arith)

holder_project-built :
    (c : Setup) (now : ℕ)
    → holder_project (build_lease c.env (settled c.env (request_of c)) now) ≡ project_id c.env
unfolding holder_project build_lease
holder_project-built c now =
    let p = project_id c.env in
    ap (λ t. strip (or_else (or_else t p) [])) (or_else_same p)
    ∙ ap (λ t. strip (or_else t [])) (or_else_same p)
    ∙ ap strip (or_else_empty p)
    ∙ strip-project_id c.env

holder_session-built :
    (c : Setup) (now : ℕ)
    → strip (c.env.fresh_id) ≡ c.env.fresh_id
    → holder_session (build_lease c.env (settled c.env (request_of c)) now)
      ≡ or_else c.env.fresh_id c.env.fresh_id
unfolding holder_session build_lease
holder_session-built c now clean =
    let f = c.env.fresh_id in
    ap (λ t. strip (or_else t [])) (or_else_same f)
    ∙ ap strip (or_else_empty f)
    ∙ clean
    ∙ sym (or_else_same f)

built-names :
    (c : Setup) (now : ℕ)
    → is_empty c.host ≡ false
    → intersects
        (lease_device_ids (build_lease c.env (settled c.env (request_of c)) now))
        (device_key c.host ∷ folded c.host ∷ [])
      ≡ true
unfolding lease_device_ids build_lease
built-names c now named = rw (named, text_eq_refl (device_key c.host)) refl

pub acquired-Held :
    (c : Setup) (deadline now : ℕ) (s : Files) {lease : Lease} {s' : Files}
    → is_empty c.host ≡ false
    → strip (c.env.fresh_id) ≡ c.env.fresh_id
    → IsOrdered s
    → attempt c.env (request_of c) c.force deadline now s ≡ some (acquired lease s')
    → Held c (session_of lease.holder) s'
unfolding build_lease
acquired-Held c deadline now s {lease} {s'} named clean o done =
    let r = request_of c in
    let e = (attempt_writes c.env r c.force deadline now s done).0 in
    let built = build_lease c.env (settled c.env r) now in
    rw e (record {
      lease = built;
      ordered = attempt-IsOrdered c.env r c.force deadline now s done o;
      there = rw e at (
          acquire-read c.env r c.force deadline now s c.host done
            (rw e (member-write_targets c.env (settled c.env r) now named)));
      names = built-names c now named;
      mine =
          own-ours c.env (session_of built.holder) built (holder_project-built c now)
            (holder_session-built c now clean);
    })
