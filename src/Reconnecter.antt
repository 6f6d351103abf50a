-- ===== src/Reconnecter.antt =====
-- UsersReconnecter (libtransport/UsersReconnecter.cpp): after a restart the users of the database are
-- asked for their presence, one each second.
pub mod Order
mod Tests
use spectrum.Prelude.{Bool, true, false, List, [], ◌∷◌, ◌++◌, Text, if◌then◌else◌}

-- `reconnected` are the users that the frontend was told, in this order; `timer` tells whether the
-- timer for the next one was started.
pub record UsersReconnecter : Type 0 where
  pub started : Bool
  pub users : List Text
  pub timer : Bool
  pub reconnected : List Text

unfoldable pub new_reconnecter : UsersReconnecter
new_reconnecter = record { started = false; users = []; timer = false; reconnected = [] }

-- `users.back()` is `next`, and `rest` what pop_back leaves.
unfoldable pub reconnect : Text → List Text → UsersReconnecter → UsersReconnecter
reconnect next rest r = record r {
  users = rest;
  timer = true;
  reconnected = r.reconnected ++ next ∷ [];
}

abbrev pub last_of : Text → List Text → Text
last_of x [] = x
last_of x (y ∷ ys) = last_of y ys

abbrev pub all_but_last : Text → List Text → List Text
all_but_last x [] = []
all_but_last x (y ∷ ys) = x ∷ all_but_last y ys

unfoldable pub reconnect_from : List Text → UsersReconnecter → UsersReconnecter
unfolding reconnect
reconnect_from [] r = r
reconnect_from (x ∷ xs) r = reconnect (last_of x xs) (all_but_last x xs) r

unfoldable pub reconnect_next_user : UsersReconnecter → UsersReconnecter
unfolding reconnect_from
reconnect_next_user r = reconnect_from r.users r

-- `stored` are the users that the database appends to the list: all, or those who were online.
unfoldable pub handle_connected : Bool → List Text → List Text → UsersReconnecter → UsersReconnecter
handle_connected reconnect_all all online r =
    if r.started
    then r
    else reconnect_next_user
        (record r { started = true; users = r.users ++ (if reconnect_all then all else online) })
