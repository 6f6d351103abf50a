-- ===== src/Registrations/Refusals.antt =====
-- Which requests to register are refused.
use spectrum.Prelude.{
  ℕ, ◌≡◌, Bool, true, false, not, ◌&&◌, ◌||◌, Option, none, some, Text, nat_eq, text_eq, ◌==◌,
  if◌then◌else◌, is_empty, arith,
}
use spectrum.Prelude.Members.{contains}
use spectrum.Users.State as Users
use spectrum.Users.State.{UserInfo, Manager}
use spectrum.Registrations.Office.{Outside, Office, unregister_user}
use spectrum.Registrations.Forms.{
  irc, Payload, Config, Checks, Reply, fill_in, local_account, or_empty, masked, store_found,
  check_username, check_payload, check_local, handle_set_request,
}

abbrev pub is_error : Reply → Bool
is_error (Reply.error k) = true
is_error Reply.result = false

abbrev has_value : Option Text → Bool
has_value none = false
has_value (some x) = not (is_empty x)

abbrev is_given : Option Text → Bool
is_given none = false
is_given (some x) = true

module _ {J D : Type 0} where
  -- Answers with an error exactly where `b` is false; only where it is true the state becomes `t`.
  abbrev Decides : Bool → Office J D → Office J D → Reply × Office J D → Type 0
  Decides b o t r = (is_error r.0 ≡ not b) × (r.1 ≡ (if b then t else o))

module _ {J D : Type 0} (host : Users.Host J D) (created : ℕ → Manager J D → Manager J D)
    (outside : Outside J D) (checks : Checks J) (config : Config) where
  -- Whether the user may have the name.
  abbrev pub is_allowed : J → Text → Office J D → Bool
  is_allowed j username o =
      not (checks.is_self username j)
      && not (
          not config.need_password
          && contains username (outside.get_legacy_network_users o.database))
      && not (
          not (is_empty config.allowed_usernames)
          && not (checks.regex_match config.allowed_usernames (masked checks config username)))

  -- The user's row is written.
  abbrev pub stored : J → Text → Text → Option UserInfo → Office J D → Office J D
  stored j username password found o =
      store_found host created outside checks config (host.swift.bare j)
        (masked checks config username) password found o

  check_username-Decides :
      (j : J) (username password : Text) (found : Option UserInfo) (o : Office J D)
      → Decides
          (is_allowed j username o)
          o
          (stored j username password found o)
          (check_username host created outside checks config j username password found o)
  unfolding check_username
  check_username-Decides j username password found o = (ground arith, ground arith)

  abbrev pub is_complete : J → Payload → Office J D → Bool
  is_complete j p o =
      has_value p.username
      && (is_given p.password || not config.need_password)
      && is_allowed j (or_empty p.username) o

  check_payload-Decides :
      (j : J) (p : Payload) (found : Option UserInfo) (o : Office J D)
      → Decides
          (is_complete j p o)
          o
          (stored j (or_empty p.username) (or_empty p.password) found o)
          (check_payload host created outside checks config j p found o)
  unfolding check_payload
  check_payload-Decides j p found o =
      let r = check_username-Decides j (or_empty p.username) (or_empty p.password) found o in
      (ground (arith, r), ground (arith, r))

  -- Whether a local account is asked for that the form does not name.
  abbrev pub is_anonymous : Payload → Bool
  is_anonymous p =
      config.require_local_account
      && (is_empty (local_account p.form).0 || is_empty (local_account p.form).1)

  abbrev pub is_local : Payload → Bool
  is_local p =
      not config.require_local_account
      || checks.local_login (local_account p.form).0 (local_account p.form).1

  check_local-Decides :
      (j : J) (p : Payload) (found : Option UserInfo) (o : Office J D)
      → (let r = check_local host created outside checks config j p found o in
          let t = stored j (or_empty p.username) (or_empty p.password) found o in
          (is_error r.0 ≡ not (is_anonymous p || (is_local p && is_complete j p o)))
          × (r.1 ≡ (if not (is_anonymous p) && (is_local p && is_complete j p o) then t else o)))
  unfolding check_local
  check_local-Decides j p found o =
      let r = check_payload-Decides j p found o in (ground (arith, r), ground (arith, r))

  -- Whether the gateway takes requests of the user.
  abbrev pub is_served : J → Bool
  is_served j =
      not (config.protocol == irc)
      && (config.public || contains (outside.domain j) config.allowed_servers)

  pub handle_set_request_lem :
      (j : J) (payload : Payload) (o : Office J D)
      → (let r = handle_set_request host created outside checks config j payload o in
          let p = fill_in payload.form payload in
          let name = host.swift.bare j in
          let accepts = is_local p && is_complete j p o in
          (is_error r.0 ≡ not (is_served j && (p.remove || (is_anonymous p || accepts))))
          × (r.1 ≡ (
              if not (is_served j)
              then o
              else if p.remove
              then (unregister_user host created outside name o).1
              else if not (is_anonymous p) && accepts
              then stored j
                  (or_empty p.username)
                  (or_empty p.password)
                  (host.backend.get_user name o.database)
                  o
              else o)))
  unfolding handle_set_request
  handle_set_request_lem j payload o =
      let r =
        check_local-Decides j (fill_in payload.form payload)
          (host.backend.get_user (host.swift.bare j) o.database) o in
      (ground (arith, r), ground (arith, r))
