-- ===== src/Login/State/Removal.antt =====
-- `remove_session` keeps the login state consistent.
pub mod Views
use dynamod.Common.{
  ℕ, ◌≡◌, refl, true, false, List, [], ◌∷◌, Option, none, some, arith, ite, subst, Option-cases,
  if◌then◌else◌, string_discrete, ℕ_discrete, string_key, nat_key, inl, inr,
}
use mathlib.Core.Option
use dynamod.Common.Map
use dynamod.Common.Map.{Map, lookup-adjust, lookup-remove, lookup-insert}
use dynamod.Common.Set
use dynamod.Common.Set.{contains-remove}
use dynamod.Login.Data.{SessionId, SeatId, Session, Seat, LoginState}
use dynamod.Login.State.{
  remove_session, remove_from_seat, remove_from_user, succeed, activate_optional, activate,
  leave_seat, leave_user, first_of, is_session, is_empty,
}
use dynamod.Login.State.Consistent.{IsConsistent, sessions_on, sessions_of, seat_of}

-- The session that takes the foreground when `x` leaves the seat.
abbrev successor : SessionId → Option Seat → Option SessionId
successor x none = none
successor x (some seat) =
    if is_session x seat.active_session then first_of (Set.remove x seat.sessions) else none

lookup-activate_optional :
    (o : Option SessionId) (sessions : Map SessionId Session) (id : SessionId)
    → Map.lookup id (activate_optional o sessions) ≡ (
        if is_session id o
        then Option.map activate (Map.lookup id sessions)
        else Map.lookup id sessions)
unfolding activate_optional
lookup-activate_optional none sessions id = refl
lookup-activate_optional (some other) sessions id =
    ground (arith, lookup-adjust other id activate sessions)

lookup-succeed :
    (x : SessionId) (seat : Option Seat) (sessions : Map SessionId Session) (id : SessionId)
    → Map.lookup id (succeed x seat sessions) ≡ (
        if is_session id (successor x seat)
        then Option.map activate (Map.lookup id sessions)
        else Map.lookup id sessions)
unfolding succeed
lookup-succeed x none sessions id = refl
lookup-succeed x (some seat) sessions id =
    ground (arith, lookup-activate_optional (first_of (Set.remove x seat.sessions)) sessions id)

empty_list : (l : List SessionId) → is_empty l ≡ true → l ≡ []
empty_list [] h = refl
empty_list (y ∷ l) h = absurd (cc)

-- The first of what remains is on the list and is not the one that leaves.
first_of-remove :
    (x id : SessionId) (l : List SessionId)
    → first_of (Set.remove x l) ≡ some id
    → (Set.contains id l ≡ true) × (ite (string_discrete x id) true false ≡ false)
unfolding Set.contains Set.remove
first_of-remove x id [] h = absurd (cc)
first_of-remove x id (y ∷ l) h = ground (arith, first_of-remove x id l)

module _ {Config JoinHandle : Type 0} (x : SessionId) (s : Session)
    (st : LoginState Config JoinHandle) (v : IsConsistent st)
    (there : Map.lookup x st.sessions ≡ some s) where
  -- After the session and its process id, after its seat, and after its user.
  pub forgotten : LoginState Config JoinHandle
  forgotten = record st {
    sessions = Map.remove x st.sessions;
    pid_to_session = Map.remove s.leader_pid st.pid_to_session;
  }

  pub unseated : LoginState Config JoinHandle
  unseated = remove_from_seat x s.seat forgotten

  pub removed : LoginState Config JoinHandle
  removed = remove_from_user x s.uid unseated

  -- The seat of the session, if there is one.
  abbrev its_seat : Option SeatId → Option Seat
  its_seat none = none
  its_seat (some sid) = Map.lookup sid st.seats

  sessions_unseated :
      (o : Option SeatId) (id : SessionId)
      → Map.lookup id (remove_from_seat x o forgotten).sessions ≡ (
          if is_session id (successor x (its_seat o))
          then Option.map activate (Map.lookup id forgotten.sessions)
          else Map.lookup id forgotten.sessions)
  unfolding remove_from_seat forgotten
  sessions_unseated none id = refl
  sessions_unseated (some sid) id =
      lookup-succeed x (Map.lookup sid st.seats) (Map.remove x st.sessions) id

  seats_unseated :
      (o : Option SeatId) (k : SeatId)
      → Map.lookup k (remove_from_seat x o forgotten).seats ≡ (
          if is_session k o
          then Option.map (leave_seat x) (Map.lookup k st.seats)
          else Map.lookup k st.seats)
  unfolding remove_from_seat forgotten
  seats_unseated none k = refl
  seats_unseated (some sid) k = ground (arith, lookup-adjust sid k (leave_seat x) st.seats)

  pub same_unseated :
      (o : Option SeatId)
      → ((remove_from_seat x o forgotten).users ≡ st.users)
        × ((remove_from_seat x o forgotten).pid_to_session
            ≡ Map.remove s.leader_pid st.pid_to_session)
  unfolding remove_from_seat forgotten
  same_unseated none = (refl, refl)
  same_unseated (some sid) = (refl, refl)

  same_removed :
      (removed.sessions ≡ unseated.sessions)
      × (removed.seats ≡ unseated.seats)
      × (removed.pid_to_session ≡ unseated.pid_to_session)
  unfolding removed remove_from_user
  same_removed = ground arith

  pub sessions_removed :
      (id : SessionId)
      → Map.lookup id removed.sessions
        ≡ ite (string_discrete x id) none (
            if is_session id (successor x (its_seat s.seat))
            then Option.map activate (Map.lookup id st.sessions)
            else Map.lookup id st.sessions)
  unfolding forgotten unseated
  sessions_removed id =
      ground (arith, same_removed, sessions_unseated s.seat id, lookup-remove x id st.sessions)

  pub seats_removed :
      (k : SeatId)
      → Map.lookup k removed.seats ≡ (
          if is_session k s.seat
          then Option.map (leave_seat x) (Map.lookup k st.seats)
          else Map.lookup k st.seats)
  unfolding unseated
  seats_removed k = ground (arith, same_removed, seats_unseated s.seat k)

  pids_removed :
      (p : ℕ)
      → Map.lookup p removed.pid_to_session
        ≡ ite (ℕ_discrete s.leader_pid p) none (Map.lookup p st.pid_to_session)
  unfolding unseated
  pids_removed p =
      ground
        (arith, same_removed, same_unseated s.seat, lookup-remove s.leader_pid p st.pid_to_session)

  users_removed :
      (u : ℕ)
      → sessions_of (Map.lookup u removed.users)
        ≡ ite
            (ℕ_discrete s.uid u)
            (Set.remove x (sessions_of (Map.lookup u st.users)))
            (sessions_of (Map.lookup u st.users))
  unfolding removed unseated remove_from_user Set.remove
  users_removed u = elim (Option-cases (Map.lookup s.uid st.users)) [
    | inl e ↦ ground (arith, same_unseated s.seat, e)
    | inr (user, e) ↦ ground (
      arith,
      same_unseated s.seat,
      e,
      lookup-remove s.uid u st.users,
      empty_list (Set.remove x user.sessions),
      lookup-insert s.uid u (leave_user unseated.sessions x user) st.users,
    )
  ]

  -- The successor was on the seat that `x` leaves, and it is not `x`.
  successor_on_seat :
      (id : SessionId)
      → successor x (its_seat s.seat) ≡ some id
      → (seat_of (Map.lookup id st.sessions) ≡ some s.seat)
        × (ite (string_discrete x id) true false ≡ false)
  unfolding Set.contains
  successor_on_seat id h = elim (Option-cases s.seat) [
    | inl out ↦ absurd (ground (arith, out))
    | inr (k, on) ↦
        ground
          (arith, on, v.on_seat k id, first_of-remove x id (sessions_on (Map.lookup k st.seats)))
  ]

  -- On the seat that `x` leaves.
  successor_there :
      (k : SeatId)
      → is_session k s.seat ≡ true
      → successor x (its_seat s.seat) ≡ successor x (Map.lookup k st.seats)
  successor_there k h = elim (Option-cases s.seat) [
    | inl out ↦ absurd (ground (arith, out))
    | inr (j, on) ↦ ground (arith, on)
  ]

  removed-IsConsistent : IsConsistent removed
  unfolding Set.contains
  removed-IsConsistent = record {
    on_seat = λ k id h. ground (
      arith,
      sessions_removed id,
      seats_removed k,
      v.on_seat k id,
      there,
      contains-remove x id (sessions_on (Map.lookup k st.seats)),
    );
    listed_on_seat = λ k id h e. ground (
      arith,
      sessions_removed id,
      seats_removed k,
      v.listed_on_seat k id,
      contains-remove x id (sessions_on (Map.lookup k st.seats)),
    );
    foreground_listed = λ k id h. ground (
      arith,
      seats_removed k,
      v.foreground_listed k id,
      first_of-remove x id (sessions_on (Map.lookup k st.seats)),
      contains-remove x id (sessions_on (Map.lookup k st.seats)),
    );
    foreground_active = λ k id h. ground (
      arith,
      sessions_removed id,
      seats_removed k,
      v.foreground_active k id,
      v.foreground_listed k id,
      v.on_seat k id,
      successor_there k,
      successor_on_seat id,
      there,
      first_of-remove x id (sessions_on (Map.lookup k st.seats)),
    );
    one_foreground = λ k id h e a. ground (
      arith,
      sessions_removed id,
      seats_removed k,
      v.one_foreground k id,
      successor_there k,
      successor_on_seat id,
      there,
    );
    state_matches = λ id. ground (arith, sessions_removed id, v.state_matches id);
    of_user = λ u id h. ground (
      arith,
      sessions_removed id,
      users_removed u,
      v.of_user u id,
      there,
      contains-remove x id (sessions_of (Map.lookup u st.users)),
    );
    listed_of_user = λ u id h. ground (
      arith,
      sessions_removed id,
      users_removed u,
      v.listed_of_user u id,
      contains-remove x id (sessions_of (Map.lookup u st.users)),
    );
    led = λ p id h. ground (arith, sessions_removed id, pids_removed p, v.led p id, there);
  }

-- `remove_session` keeps the login state consistent, whatever session is named: in particular the
-- session that takes over the foreground of the seat becomes its active one.
pub remove_session-IsConsistent :
    {Config JoinHandle : Type 0} (id : SessionId) (st : LoginState Config JoinHandle)
    → IsConsistent st
    → IsConsistent (remove_session id st)
unfolding remove_session removed unseated forgotten
remove_session-IsConsistent id st v = elim (Option-cases (Map.lookup id st.sessions)) [
  | inl e ↦ subst IsConsistent (ground (arith, e)) v
  | inr (s, e) ↦ subst IsConsistent (ground (arith, e)) (removed-IsConsistent id s st v e)
]
