-- ===== src/Users/Same.antt =====
-- What the checks of a login leave alone: who is logged in, and the User objects.
use spectrum.Prelude.{
  ℕ, [], ◌≡◌, refl, Bool, true, false, Option, none, some, Text, text_eq, nat_eq, if◌then◌else◌,
  arith, ◌∙◌,
}
use spectrum.Names.{uin_of_node}
use spectrum.Presences.{PresenceType}
use spectrum.Users.State.{Host, UserInfo, Stanza, Effect, emit, Manager, M, go_on, ◌>>=◌}
use spectrum.Users.Login.{
  set_online, store_user, password_invalid, register_server, take_password, register_gateway,
  register_in, register, check_vip, check_enabled, admit, greet_admin, answer_offline, deliver,
  handle_removal_slot, is_muc,
}

pub record Same {J D : Type 0} (s t : Manager J D) : Type 0 where
  pub users : t.users ≡ s.users
  pub cached : t.cached_user ≡ s.cached_user
  pub next : t.next ≡ s.next
  pub jid : t.jid ≡ s.jid

module _ {J D : Type 0} where
  pub Same-refl : (s : Manager J D) → Same s s
  Same-refl s = record { users = refl; cached = refl; next = refl; jid = refl }

  pub Same-trans : {s t u : Manager J D} → Same s t → Same t u → Same s u
  Same-trans a b = record {
    users = b.users ∙ a.users;
    cached = b.cached ∙ a.cached;
    next = b.next ∙ a.next;
    jid = b.jid ∙ a.jid;
  }

  pub emit-Same : (x : Effect J) (s : Manager J D) → Same s (emit x s)
  emit-Same x s = ground arith

  -- A step of a login, as `M`, that leaves them alone.
  abbrev pub Keeps : {A : Type 0} → M J D A → Type 0
  Keeps m = (s : Manager J D) → Same s (m s).1

  go_on-Keeps :
      {A B : Type 0} (f : A → M J D B) (o : Option A) (s t : Manager J D)
      → ((a : A) → Keeps (f a))
      → Same s t
      → Same s (go_on f o t).1
  go_on-Keeps f none s t keeps same = same
  go_on-Keeps f (some a) s t keeps same = Same-trans same (keeps a t)

  pub bind-Keeps :
      {A B : Type 0} (m : M J D A) (f : A → M J D B)
      → Keeps m
      → ((a : A) → Keeps (f a))
      → Keeps (m >>= f)
  bind-Keeps m f keeps later s = go_on-Keeps f (m s).0 s (m s).1 later (keeps s)

module _ {J D : Type 0} (host : Host J D) where
  store_user-Keeps : (name : Text) (res : UserInfo) → Keeps (store_user host name res)
  unfolding store_user
  store_user-Keeps name res s = ground arith

  pub set_online-Same : (id : ℕ) (on : Bool) (s : Manager J D) → Same s (set_online host id on s)
  unfolding set_online
  set_online-Same id on s = ground arith

  register_server-Keeps : (j : J) (found : Option UserInfo) → Keeps (register_server host j found)
  unfolding register_server password_invalid
  register_server-Keeps j none s = ground (
    arith,
    store_user-Keeps (host.swift.bare j)
        (record host.blank {
          password = [];
          uin = uin_of_node (host.swift.node j);
          jid = host.swift.bare j;
        })
        s,
  )
  register_server-Keeps j (some res) s = Same-refl s

  register_gateway-Keeps :
      (p : Stanza J) (found : Option UserInfo) → Keeps (register_gateway host p found)
  unfolding register_gateway
  register_gateway-Keeps p none s = ground (
    arith,
    store_user-Keeps (host.swift.bare p.sender)
        (record host.blank {
          password = [];
          uin = if is_muc host p then host.swift.resource p.receiver else host.swift.full p.sender;
          jid = host.swift.bare p.sender;
        })
        s,
  )
  register_gateway-Keeps p (some res) s = Same-refl s

  take_password-Keeps : (name : Text) (res : UserInfo) → Keeps (take_password host name res)
  unfolding take_password
  take_password-Keeps name res s = Same-refl s

  register_in-Keeps :
      (on : Bool) (p : Stanza J) (found : Option UserInfo) → Keeps (register_in host on p found)
  unfolding register_in
  register_in-Keeps true p found =
      bind-Keeps (register_server host p.sender found)
        (take_password host (host.swift.bare p.sender)) (register_server-Keeps p.sender found)
        (take_password-Keeps (host.swift.bare p.sender))
  register_in-Keeps false p found = register_gateway-Keeps p found

  register-Keeps : (p : Stanza J) → Keeps (register host p)
  unfolding register
  register-Keeps p s = register_in-Keeps s.server_mode p _ s

  check_vip-Keeps : (j : J) (res : UserInfo) → Keeps (check_vip host j res)
  unfolding check_vip password_invalid
  check_vip-Keeps j res s = ground arith

  check_enabled-Keeps : (res : UserInfo) → Keeps (check_enabled host res)
  unfolding check_enabled
  check_enabled-Keeps res s = ground arith

  pub admit-Keeps : (p : Stanza J) → Keeps (admit host p)
  unfolding admit
  admit-Keeps p =
      bind-Keeps _ (check_enabled host)
        (bind-Keeps (register host p) (check_vip host p.sender) (register-Keeps p)
          (check_vip-Keeps p.sender))
        check_enabled-Keeps

  pub answer_offline-Same : (p : Stanza J) (s : Manager J D) → Same s (answer_offline host p s)
  unfolding answer_offline set_online
  answer_offline-Same p s = ground arith

  pub greet_admin-Same : (j : J) (s : Manager J D) → Same s (greet_admin host j s)
  unfolding greet_admin
  greet_admin-Same j s = ground arith

  pub deliver-Same :
      (p : Stanza J) (highest : Option PresenceType) (u : Option ℕ) (s : Manager J D)
      → Same s (deliver host p highest u s)
  unfolding deliver password_invalid handle_removal_slot
  deliver-Same p highest none s = ground arith
  deliver-Same p highest (some u) s = ground arith
