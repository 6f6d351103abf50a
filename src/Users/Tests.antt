-- ===== src/Users/Tests.antt =====
-- A manager with a database of one user; JIDs are texts whose bare form ends before a slash (47).
use spectrum.Prelude.{
  ℕ, ◌≡◌, refl, Bool, true, false, ◌&&◌, [], ◌∷◌, none, some, Text, text_eq, nat_eq, ◌==◌,
  if◌then◌else◌, arith,
}
use spectrum.Prelude.Keys.{text_beq}
use spectrum.Prelude.Maps.{Map, lookup, insert}
use spectrum.Registry.{on_password_invalid}
use spectrum.Presences.{available}
use spectrum.Users.State.{
  Host, StorageBackend, UserInfo, Config, Jid, Stanza, Manager, starts_with_hash,
}
use spectrum.Users.Login.{
  get_user, handle_presence, admit, handle_found, handle_absent, log_in, enter, new_user, refresh,
  deliver, register, register_in, register_gateway, check_vip, check_enabled, find_registered,
  is_cached, load_settings, create_user, add_user, set_online, is_admin, is_muc,
}
use spectrum.Users.Removal.{handle_remove_timeout, remove_all_users, is_user}
use spectrum.Users.Stanzas.{Step, Reach}
use spectrum.Users.Reached.{Reach-get_user}
use spectrum.Users.Expiry.{lookup-handle_remove_timeout, remove_all_users-empty}
use spectrum.Users.Admission.{admit-registered}

abbrev bare_text : Text → Text
bare_text [] = []
bare_text (c ∷ j) = if c == 47 then [] else c ∷ bare_text j

bare_text_twice : (j : Text) → bare_text (bare_text j) ≡ bare_text j
bare_text_twice [] = refl
bare_text_twice (c ∷ j) = ground (arith, bare_text_twice j)

abbrev texts : Jid Text
texts = record {
  bare = bare_text;
  to_bare = bare_text;
  bare-to_bare = bare_text_twice;
  parse = λ j. j;
  bare-parse = bare_text_twice;
  node = bare_text;
  resource = λ j. [];
  full = λ j. j;
}

abbrev Database : Type 0
Database = Map Text UserInfo

abbrev table : StorageBackend Database
table = record {
  get_user = λ name d. lookup name d;
  set_user = λ res d. insert res.jid res d;
  set_user_online = λ id on d. d;
  get_all_settings = λ id d settings. settings;
  get_user_setting = λ id name value d. (value, d);
}

abbrev somebody : UserInfo
somebody = record {
  id = 3;
  jid = 5 ∷ [];
  uin = 8 ∷ [];
  password = 9 ∷ [];
  vip = false;
  settings = [];
}

abbrev host : Host Text Database
host = record { swift = texts; backend = table; blank = record somebody { id = 0 } }

abbrev gateway : Config
gateway = record {
  server_mode = false;
  auto_register = true;
  vip_only = false;
  more_resources = false;
  need_registration = none;
  need_password = none;
  vip_message = [];
  admin_jids = [];
}

abbrev manager : Database → Manager Text Database
manager d = record {
  config = gateway;
  own_jid = 1 ∷ [];
  users = [];
  cached_user = none;
  next = 10;
  jid = λ u. [];
  info = λ u. somebody;
  is_connected = λ u. false;
  storage = some d;
  registry = record {
    settings = record { admin_jids = []; admin_password = [] };
    users = [];
    in_remove_later = false;
    events = [];
  };
  removals = [];
  effects = [];
}

abbrev one_user : Database
one_user = (5 ∷ [], somebody) ∷ []

abbrev hello : Stanza Text
hello = record { sender = 5 ∷ 47 ∷ 6 ∷ []; receiver = []; kind = available; has_muc = false }

abbrev listeners : ℕ → Manager Text Database → Manager Text Database
listeners u s = s

abbrev logged_in : Manager Text Database
logged_in = handle_presence host listeners hello none (manager one_user)

logged_in-Reach : Reach host listeners logged_in
logged_in-Reach =
    Reach.next (Reach.start (manager one_user) refl refl) (Step.user_presence hello none)

Reach-get_user_example :
    ((get_user host (5 ∷ []) logged_in).0 ≡ lookup (5 ∷ []) logged_in.users)
    × ((get_user host (5 ∷ []) logged_in).1.users ≡ logged_in.users)
    × ((u : ℕ)
        → (get_user host (5 ∷ []) logged_in).0 ≡ some u
        → bare_text (logged_in.jid u) ≡ 5 ∷ [])
Reach-get_user_example = Reach-get_user host listeners (λ u s ok. ok) logged_in-Reach (5 ∷ [])

logged_in_user : lookup (5 ∷ []) logged_in.users ≡ some 10
unfolding handle_presence handle_found handle_absent log_in enter new_user refresh deliver admit
    register register_in register_gateway check_vip check_enabled find_registered get_user is_cached
    load_settings create_user add_user set_online is_admin is_muc starts_with_hash lookup insert
    text_beq
logged_in_user = refl

lookup-handle_remove_timeout_example :
    ((other : Text)
      → lookup other (handle_remove_timeout host listeners (5 ∷ []) 10 false logged_in).users ≡ (
          if is_user 10 (lookup (5 ∷ []) logged_in.users) && text_beq (5 ∷ []) other
          then none
          else lookup other logged_in.users))
    × ((reconnect : Bool)
        → is_user 10 (lookup (5 ∷ []) logged_in.users) ≡ false
        → ((handle_remove_timeout host listeners (5 ∷ []) 10 reconnect logged_in).users
            ≡ logged_in.users)
          × ((handle_remove_timeout host listeners (5 ∷ []) 10 reconnect logged_in).effects
              ≡ logged_in.effects))
lookup-handle_remove_timeout_example =
    lookup-handle_remove_timeout host listeners (λ u s ok. ok) logged_in-Reach (5 ∷ []) 10

remove_all_users-empty_example :
    ((remove_all_users host listeners true logged_in).users ≡ [])
    × ((remove_all_users host listeners true logged_in).cached_user ≡ none)
remove_all_users-empty_example =
    remove_all_users-empty host listeners (λ u s ok. ok) logged_in-Reach true

-- The setting of `somebody` is not stored, so that it is the default.
admit-registered_example :
    ((admit host hello (manager one_user)).0 ≡ some somebody)
    × ((admit host hello (manager one_user)).1.registry ≡ (manager one_user).registry)
    × (lookup
          (5 ∷ [])
          (on_password_invalid bare_text (5 ∷ 47 ∷ 6 ∷ []) (manager one_user).registry).users
        ≡ none)
unfolding text_beq
admit-registered_example =
    admit-registered host hello somebody (manager one_user) one_user refl found
  where
    found : lookup {K = Text} (5 ∷ []) one_user ≡ some somebody
    found = unfold lookup in refl
