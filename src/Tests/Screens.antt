-- ===== src/Tests/Screens.antt =====
-- Runs of the kitchen screens, and instances of their theorems.
use api_kitchen.Base.{
  ℕ, pairing_code_generation_failed, kds_session_generation_failed, pairing_code_already_used,
  kds_session_revoked, ok, err, Text, text, ◌+◌, ◌≡◌, refl, ◌⊎◌, true, List, [], ◌∷◌, arith,
}
use api_kitchen.Kds.Draws.{FirstFree, AllTaken, draw_code_ends}
use api_kitchen.Kds.Revoked.{revoked_for_good}
use api_kitchen.Kds.Paired.{pair-resolve, code_pairs_once}
use api_kitchen.Kds.Requests.{ScreenRequest, asks_code, pairs, resolves, serve_screens}
use api_kitchen.Kds.OneUsable.{usable_count, OneUsable, serve_screens-OneUsable}
use api_kitchen.Kds.Tables.{Screen, Remote, Screens, KdsEnv}
use api_kitchen.Kds.Remotes.{resolve_remote_session, revoke_remote_session}
use api_kitchen.Kds.Pairing.{
  create_screen, is_code_taken, draw_code, draw_token, create_pairing_code, pair_remote,
  retire_codes, add_code,
}

-- The n-th attempt draws the n-th digit, or letter; a hash is the text with a mark in front.
abbrev at_time : ℕ → KdsEnv
at_time now = record {
  now = now;
  hash_code = λ t. 99 ∷ t;
  hash_token = λ t. 116 ∷ t;
  drawn_code = λ n. (48 + n) ∷ [];
  drawn_token = λ n. (97 + n) ∷ [];
}

abbrev no_screens : Screens
no_screens = record {
  screens = [];
  codes = [];
  remotes = [];
  next_screen_id = 0;
  next_remote_id = 0;
}

abbrev one_screen : Screens
one_screen = (create_screen (text "grill") true true no_screens).1

abbrev with_code : Screens
with_code = (create_pairing_code (at_time 1000) 0 7 one_screen).1

abbrev with_remote : Screens
with_remote = (pair_remote (at_time 1100) (text "0") 8 with_code).1

abbrev without_remote : Screens
without_remote = (revoke_remote_session (at_time 2000) (text "a") with_remote).1

abbrev service_time : List (KdsEnv × ScreenRequest)
service_time =
    (at_time 2100, asks_code 0 7)
    ∷ (at_time 2150, asks_code 0 7)
    ∷ (at_time 2200, pairs (text "0") 9)
    ∷ (at_time 2300, resolves (text "a") true)
    ∷ []

-- Two codes are asked for, the second one is paired, and none is left.
service_time_lem : usable_count 0 2160 (serve_screens service_time without_remote).codes ≡ 0
unfolding resolve_remote_session api_kitchen.Kds.Remotes.resolve_remote_session_tx
    api_kitchen.Base.strip pair_remote api_kitchen.Kds.Pairing.pair_remote_tx create_pairing_code
    api_kitchen.Kds.Pairing.create_pairing_code_tx api_kitchen.Kds.Pairing.retire_codes
    api_kitchen.Kds.Pairing.add_code api_kitchen.Kds.Pairing.get_screen revoke_remote_session
    api_kitchen.Kds.Remotes.revoke_remote_session_tx create_screen
    api_kitchen.Kds.Pairing.create_screen_tx draw_code api_kitchen.Kds.Pairing.draw draw_token
service_time_lem = refl

serve_screens-OneUsable_example : OneUsable 2300 (serve_screens service_time no_screens).codes
serve_screens-OneUsable_example =
    serve_screens-OneUsable service_time 2000 no_screens (λ screen now le. omega arith)
      (omega arith, (omega arith, (omega arith, (omega arith, tt))))

abbrev added : Screens → Screens
added s = elim (add_code (at_time 1000) 0 7 s) [ ok (code, s') ↦ s' | err e n ↦ s ]

-- Two requests that both retire the codes before either adds its own leave two usable ones.
overlapping_codes_lem :
    let s = retire_codes (at_time 1000) 0 (retire_codes (at_time 1000) 0 one_screen) in
    usable_count 0 1100 (added (added s)).codes ≡ 2
unfolding retire_codes add_code create_screen api_kitchen.Kds.Pairing.create_screen_tx draw_code
    api_kitchen.Kds.Pairing.draw
overlapping_codes_lem = refl

draw_code_ends_example :
    ((code : Text) × (draw_code (at_time 1000) with_code.codes ≡ ok code)
      × FirstFree
          (is_code_taken (at_time 1000) with_code.codes)
          (at_time 1000).drawn_code
          0
          10
          code)
    ⊎ ((draw_code (at_time 1000) with_code.codes ≡ err pairing_code_generation_failed 503)
        × AllTaken (is_code_taken (at_time 1000) with_code.codes) (at_time 1000).drawn_code 0 10)
draw_code_ends_example = draw_code_ends (at_time 1000) with_code.codes

code_pairs_once_example :
    ((token : Text) × (s'' : Screens) × (pair_remote (at_time 1100) (text "0") 8 with_code
        ≡ (ok token, s''))
      × ((later : KdsEnv) (other : ℕ)
          → later.hash_code (text "0") ≡ (at_time 1100).hash_code (text "0")
          → pair_remote later (text "0") other s'' ≡ (err pairing_code_already_used 409, s'')))
    ⊎ (draw_token (at_time 1100) one_screen.remotes ≡ err kds_session_generation_failed 503)
unfolding create_pairing_code api_kitchen.Kds.Pairing.create_pairing_code_tx
    api_kitchen.Kds.Pairing.retire_codes api_kitchen.Kds.Pairing.add_code
    api_kitchen.Kds.Pairing.get_screen create_screen api_kitchen.Kds.Pairing.create_screen_tx
    draw_code api_kitchen.Kds.Pairing.draw
code_pairs_once_example =
    code_pairs_once (at_time 1000) (at_time 1100) 0 7 8 one_screen with_code (text "0") refl refl
      (omega arith)

pair-resolve_example :
    (remote : Remote) × (screen : Screen) × ((resolve_remote_session
        (at_time 5000)
        (text "a")
        true
        with_remote).0
      ≡ ok (remote, screen))
    × (remote.paired_by_user_id ≡ 8)
    × (remote.screen_id ≡ screen.id)
    × (screen.is_active ≡ true)
unfolding pair_remote api_kitchen.Kds.Pairing.pair_remote_tx create_pairing_code
    api_kitchen.Kds.Pairing.create_pairing_code_tx api_kitchen.Kds.Pairing.retire_codes
    api_kitchen.Kds.Pairing.add_code api_kitchen.Kds.Pairing.get_screen create_screen
    api_kitchen.Kds.Pairing.create_screen_tx draw_code api_kitchen.Kds.Pairing.draw draw_token
    api_kitchen.Base.strip
pair-resolve_example =
    pair-resolve (at_time 1100) (at_time 5000) (text "0") 8 true with_code with_remote (text "a")
      refl refl refl refl (omega arith)

revoked_for_good_example :
    (resolve_remote_session
      (at_time 3000)
      (text "a")
      true
      (serve_screens service_time without_remote)).0
    ≡ err kds_session_revoked 401
unfolding revoke_remote_session api_kitchen.Kds.Remotes.revoke_remote_session_tx
    api_kitchen.Base.strip pair_remote api_kitchen.Kds.Pairing.pair_remote_tx create_pairing_code
    api_kitchen.Kds.Pairing.create_pairing_code_tx api_kitchen.Kds.Pairing.retire_codes
    api_kitchen.Kds.Pairing.add_code api_kitchen.Kds.Pairing.get_screen create_screen
    api_kitchen.Kds.Pairing.create_screen_tx draw_code api_kitchen.Kds.Pairing.draw draw_token
revoked_for_good_example =
    revoked_for_good (at_time 2000) (at_time 3000) (text "a") true with_remote without_remote
      service_time refl refl
