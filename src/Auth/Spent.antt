-- ===== src/Auth/Spent.antt =====
-- A session that was revoked is never live again.
use api_kitchen.Base.{
  ℕ, find_row, change_row, change_rows, ◌<◌, ◌≡◌, refl, Bool, none, List, [], ◌∷◌, arith,
}
use api_kitchen.Auth.Sessions.{is_session_id, revoke}
use api_kitchen.Auth.Kept.{IsKept, serve_auths-Holds}
use api_kitchen.Auth.Requests.{AuthRequest, serve_auths}
use api_kitchen.Auth.Tables.{RefreshToken, Accounts, AuthEnv}

-- No live row has the key, and no new row will have it.
pub record Spent (key : ℕ) (s : Accounts) : Type 0 where
  pub gone : find_row (is_session_id key) s.tokens ≡ none
  pub old : key < s.next_token_id

revoke_row-gone :
    (key now : ℕ) (p : RefreshToken → Bool) (rows : List RefreshToken)
    → find_row (is_session_id key) rows ≡ none
    → find_row (is_session_id key) (change_row p (revoke now) rows) ≡ none
revoke_row-gone key now p [] e = refl
revoke_row-gone key now p (t ∷ rows) e = ground (arith, revoke_row-gone key now p rows)

pub revoke_rows-gone :
    (key now : ℕ) (p : RefreshToken → Bool) (rows : List RefreshToken)
    → find_row (is_session_id key) rows ≡ none
    → find_row (is_session_id key) (change_rows p (revoke now) rows) ≡ none
revoke_rows-gone key now p [] e = refl
revoke_rows-gone key now p (t ∷ rows) e = ground (arith, revoke_rows-gone key now p rows)

abbrev Gone : ℕ → ℕ → List RefreshToken → Type 0
Gone key next rows = (find_row (is_session_id key) rows ≡ none) × (key < next)

Gone-IsKept : (key : ℕ) → IsKept (Gone key)
Gone-IsKept key = record {
  by_row = λ next now p rows h. (revoke_row-gone key now p rows h.0, h.1);
  by_rows = λ next now p rows h. (revoke_rows-gone key now p rows h.0, h.1);
  by_issue = λ env user next rows h. (ground (arith, h.0, h.1), omega (arith, h.1));
}

pub serve_auths-Spent :
    (rs : List (AuthEnv × AuthRequest)) (key : ℕ) (s : Accounts)
    → Spent key s
    → Spent key (serve_auths rs s)
serve_auths-Spent rs key s h =
    let after = serve_auths-Holds (Gone key) (Gone-IsKept key) rs s (h.gone, h.old) in
    record { gone = after.0; old = after.1 }
