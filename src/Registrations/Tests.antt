-- ===== src/Registrations/Tests.antt =====
-- A user `7`, whose row has the buddy `b`, and whom the database forgets; JIDs are texts.
use spectrum.Prelude.{
  ℕ, ◌≡◌, refl, Bool, true, false, not, ◌&&◌, ◌||◌, [], ◌∷◌, ◌++◌, none, some, Text, text_eq,
  nat_eq, if◌then◌else◌,
}
use spectrum.Prelude.Keys.{text_beq}
use spectrum.Prelude.Maps.{lookup}
use spectrum.Users.State as Users
use spectrum.Users.State.{UserInfo, Manager}
use spectrum.Users.Login.{get_user, is_cached}
use spectrum.Registrations.Office.{
  BuddyInfo, Outside, Sent, Office, unregister_user, handle_unregister_remote_roster_response,
}
use spectrum.Registrations.Forms.{Payload, Config, Checks, fill_in, handle_set_request}
use spectrum.Registrations.Refusals.{
  is_error, is_served, is_anonymous, is_local, is_complete, stored, handle_set_request_lem,
}
use spectrum.Registrations.Farewell.{farewell, unregister_user-farewell}

abbrev row : UserInfo
row = record {
  id = 3;
  jid = 7 ∷ [];
  uin = 117 ∷ [];
  password = 112 ∷ [];
  vip = false;
  settings = [];
}

-- The database is whether the row is in it.
abbrev host : Users.Host Text Bool
host = record {
  swift = record {
    bare = λ j. j;
    to_bare = λ j. j;
    bare-to_bare = λ j. refl;
    parse = λ j. j;
    bare-parse = λ j. refl;
    node = λ j. j;
    resource = λ j. [];
    full = λ j. j;
  };
  backend = record {
    get_user = λ name d. if d then some row else none;
    set_user = λ res d. true;
    set_user_online = λ id on d. d;
    get_all_settings = λ id d settings. settings;
    get_user_setting = λ id name value d. (value, d);
  };
  blank = record row { id = 0 };
}

abbrev buddy_b : BuddyInfo
buddy_b = record { legacy_name = 98 ∷ []; escaped = true }

abbrev outside : Outside Text Bool
outside = record {
  get_buddies = λ id d. if d then buddy_b ∷ [] else [];
  remove_row = λ id d. false;
  get_legacy_network_users = λ d. if d then row.uin ∷ [] else [];
  domain = λ j. 9 ∷ [];
  escape = λ s. s;
}

abbrev manager : Manager Text Bool
manager = record {
  config = record {
    server_mode = false;
    auto_register = true;
    vip_only = false;
    more_resources = false;
    need_registration = none;
    need_password = none;
    vip_message = [];
    admin_jids = [];
  };
  own_jid = 9 ∷ [];
  users = [];
  cached_user = none;
  next = 10;
  jid = λ u. [];
  info = λ u. row;
  is_connected = λ u. false;
  storage = none;
  registry = record {
    settings = record { admin_jids = []; admin_password = [] };
    users = [];
    in_remove_later = false;
    events = [];
  };
  removals = [];
  effects = [];
}

abbrev office : Office Text Bool
office = record { manager = manager; database = true; notify_jids = []; sent = []; events = [] }

abbrev created : ℕ → Manager Text Bool → Manager Text Bool
created u s = s

nobody : (get_user host (7 ∷ []) (record manager { storage = some false })).0 ≡ none
unfolding get_user is_cached lookup
nobody = refl

unregister_user-farewell_example :
    (handle_unregister_remote_roster_response host created outside row none
      (unregister_user host created outside (7 ∷ []) office).1).sent
    ≡ [] ++ Sent.roster_request (7 ∷ []) ∷ farewell host created outside office (7 ∷ []) none
unregister_user-farewell_example =
    unregister_user-farewell host created outside (λ id d. refl) (7 ∷ []) row office refl nobody
      none

abbrev checks : Checks Text
checks = record {
  is_self = λ name j. text_beq name j;
  local_login = λ name password. false;
  fill_mask = λ mask name. mask ++ name;
  regex_match = λ r name. true;
}

abbrev config : Config
config = record {
  protocol = [];
  public = true;
  allowed_servers = [];
  require_local_account = true;
  need_password = true;
  username_mask = [];
  allowed_usernames = [];
}

-- A request that names no local account.
abbrev request : Payload
request = record {
  username = some (117 ∷ []);
  password = some (112 ∷ []);
  remove = false;
  form = none;
}

handle_set_request_lem_example :
    (is_error (handle_set_request host created outside checks config (7 ∷ []) request office).0
      ≡ not (
          is_served host created outside checks config (7 ∷ [])
          && (false
              || (is_anonymous host created outside checks config request
                  || (is_local host created outside checks config request
                      && is_complete host created outside checks config (7 ∷ []) request office)))))
    × ((handle_set_request host created outside checks config (7 ∷ []) request office).1 ≡ (
        if not (is_served host created outside checks config (7 ∷ []))
        then office
        else if not (is_anonymous host created outside checks config request)
            && (is_local host created outside checks config request
                && is_complete host created outside checks config (7 ∷ []) request office)
        then stored host created outside checks config
            (7 ∷ [])
            (117 ∷ [])
            (112 ∷ [])
            (some row)
            office
        else office))
unfolding fill_in
handle_set_request_lem_example =
    handle_set_request_lem host created outside checks config (7 ∷ []) request office
