-- ===== src/Admin/Handler/Serve/Kept.antt =====
-- A request to the admin UI that changes nothing but the throttle, and the login page, which is one.
use goddns.Base.{
  Bool, true, false, not, [], ◌∷◌, ◌≡◌, refl, ◌⊎◌, inl, inr, if◌then◌else◌, Bool-cases, ◌==◌,
}
use goddns.Base.Strings.{Bytes, bytes, str_eq, trim_space}
use goddns.Config.{Libraries, AdminConfig}
use goddns.Admin.Session.{Codec}
use goddns.Admin.Throttle.{Throttle, blocked_until}
use goddns.Admin.Handler.{Request, Response, World, Meets, field, ip_key, verify_cred, handle_login}

-- Nothing but the throttle changed.
pub record IsKept (w : World) (x : Response × World) : Type 0 where
  pub db_kept : x.1.db ≡ w.db
  pub tree_kept : x.1.tree ≡ w.tree
  pub calls_kept : x.1.calls ≡ w.calls
  pub reloads_kept : x.1.reloads ≡ w.reloads

pub kept : (w : World) (x : Response) → IsKept w (x, w)
kept w x = record { db_kept = refl; tree_kept = refl; calls_kept = refl; reloads_kept = refl }

pub same : (w : World) (x : Response) (t : Throttle) → IsKept w (x, record w { throttle = t })
same w x t = record { db_kept = refl; tree_kept = refl; calls_kept = refl; reloads_kept = refl }

-- A test that changes nothing, before a handler that changes nothing.
pub late :
    (w : World) (b : Bool) (x : Response) (y : Response × World)
    → IsKept w y
    → IsKept w (if b then (x, w) else y)
late w true x y h = kept w x
late w false x y h = h

-- Two ways that change nothing.
pub both :
    (w : World) (b : Bool) (x y : Response × World)
    → IsKept w x
    → IsKept w y
    → IsKept w (if b then x else y)
both w true x y h k = h
both w false x y h k = k

-- The test that a change is confirmed.
pub asked :
    (w : World) (b : Bool) (x : Response) (y : Response × World)
    → b ≡ false
    → IsKept w (if not b then (x, w) else y)
asked w b x y e = rw e (kept w x)

-- A test before a handler's work.
pub tested :
    (w : World) (b : Bool) (x : Response) (y : Response × World)
    → IsKept w (if not b then (x, w) else y) ⊎ (b ≡ true)
tested w true x y = inr refl
tested w false x y = inl (kept w _)

module _ (lib : Libraries) (codec : Codec) (secret : Bytes) where
  pub handle_login-Kept :
      (ad : AdminConfig) (m : Meets) (r : Request) (w : World)
      → IsKept w (handle_login lib codec secret ad m r w)
  unfolding handle_login
  handle_login-Kept ad m r w = elim (Bool-cases (str_eq r.method (bytes "GET"))) [
    | inl e ↦ rw e (kept w _)
    | inr e ↦
        elim (Bool-cases (blocked_until m.now (ip_key lib codec secret r ∷ []) w.throttle == 0)) [
          | inr f ↦ rw (e, f) (kept w _)
          | inl f ↦
              elim (Bool-cases (
                verify_cred lib codec secret ad.users (trim_space (field "user" r))
                  (field "pass" r))) [
                    | inl g ↦ rw (e, f, g) (same w _ _)
                    | inr g ↦ rw (e, f, g) (same w _ _)
                  ]
        ]
  ]
