-- ===== src/Names.antt =====
-- Legacy names and the node parts of JIDs: `Buddy::getSafeName` and `Buddy::JIDToLegacyName`
-- (libtransport/Buddy.cpp), and the node of an unregistered user (libtransport/UserManager.cpp).
-- A name is a list of bytes; 37 is `%` and 64 is `@`. Swift's escaping of nodes is a parameter.
pub mod Unescape
pub mod Legacy
mod Tests
use spectrum.Prelude.{
  ℕ, zero, suc, Bool, true, false, not, List, [], ◌∷◌, Text, text_eq, nat_eq, ◌==◌, if◌then◌else◌,
  length,
}
use spectrum.Prelude.Members.{contains}

-- `name.replace(name.find_last_of(a), 1, b)`, where there is an `a`.
pub replace_last : ℕ → ℕ → Text → Text
replace_last a b [] = []
replace_last a b (c ∷ s) =
    let rest = replace_last a b s in
    if contains a s then c ∷ rest else if c == a then b ∷ s else c ∷ s

-- `while (uin.find_last_of("%") != npos) uin.replace(uin.find_last_of("%"), 1, "@");`
pub replace_while : ℕ → ℕ → ℕ → Text → Text
replace_while zero a b s = s
replace_while (suc fuel) a b s =
    let rest = replace_while fuel a b (replace_last a b s) in if contains a s then rest else s

pub uin_of_node : Text → Text
uin_of_node node = replace_while (length node) 37 64 node

module _ (escape unescape : Text → Text) where
  -- `getSafeName` of a buddy whose JID is not generated; `escaping` is BUDDY_JID_ESCAPING.
  pub safe_name : Bool → Text → Text
  safe_name escaping name = if escaping then escape name else replace_last 64 37 name

  -- `JIDToLegacyName` without a user, of a JID with this node.
  pub jid_to_legacy_name : Text → Text
  jid_to_legacy_name node = if unescape node == node then replace_last 37 64 node else unescape node

  -- `buddyFlagsFromJID`: whether the node is escaped.
  pub buddy_flags_from_jid : Text → Bool
  buddy_flags_from_jid node = not (unescape node == node)
