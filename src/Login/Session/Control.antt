-- ===== src/Login/Session/Control.antt =====
-- Devices are open only under a controller.
use dynamod.Common.{
  ℕ, String, ◌≡◌, refl, Bool, false, [], ◌∷◌, Option, some, arith, string_key, nat_key,
}
use dynamod.Common.Map
use dynamod.Common.Map.{lookup-insert}
use dynamod.Login.Data.{Session}
use dynamod.Login.State.Consistent.{is_loose}
use dynamod.Login.Session.{
  device_key, DeviceId, Opening, take_control, release_control, take_device, release_device,
  set_type, set_idle_hint,
}

-- What a client can ask of a session.
pub data Asked : Type 0 where
  control : (force : Bool) (sender : Option String) → Asked
  drop_control : Asked
  device : (dev : DeviceId) (o : Opening) → Asked
  return_device : (dev : DeviceId) → Asked
  type_of : String → Asked
  idle : (idle : Bool) (now_usec : ℕ) → Asked

-- The session afterwards.
abbrev pub serve : (DeviceId → String) → Asked → Session → Session
serve name (control force sender) s = (take_control force sender s).0
serve name drop_control s = (release_control s).0
serve name (device dev o) s = (take_device name dev o s).0
serve name (return_device dev) s = (release_device name dev s).0
serve name (type_of t) s = (set_type t s).0
serve name (idle b now) s = (set_idle_hint b now s).0

nothing_to_remove : (dev : DeviceId) (m : Map.Map DeviceId ℕ) → m ≡ [] → Map.remove dev m ≡ []
unfolding Map.remove
nothing_to_remove dev [] h = refl
nothing_to_remove dev (x ∷ m) h = absurd (cc)

pub serve-controlled :
    (name : DeviceId → String) (a : Asked) (s : Session)
    → is_loose (some s) ≡ false
    → is_loose (some (serve name a s)) ≡ false
unfolding take_control release_control take_device release_device set_type set_idle_hint
serve-controlled name (control force sender) s v = ground (arith, v)
serve-controlled name drop_control s v = refl
serve-controlled name (device dev o) s v = ground (arith, v)
serve-controlled name (return_device dev) s v = ground (arith, v, nothing_to_remove dev s.devices)
serve-controlled name (type_of t) s v = ground (arith, v)
serve-controlled name (idle b now) s v = v

-- Where the session is, whose it is, and whether it is active.
pub record SamePlace (s t : Session) : Type 0 where
  pub same_seat : t.seat ≡ s.seat
  pub same_uid : t.uid ≡ s.uid
  pub same_active : t.active ≡ s.active
  pub same_state : t.state ≡ s.state
  pub same_leader : t.leader_pid ≡ s.leader_pid

pub serve-SamePlace :
    (name : DeviceId → String) (a : Asked) (s : Session) → SamePlace s (serve name a s)
unfolding take_control release_control take_device release_device set_type set_idle_hint
serve-SamePlace name (control force sender) s = record {
  same_seat = ground arith;
  same_uid = ground arith;
  same_active = ground arith;
  same_state = ground arith;
  same_leader = ground arith;
}
serve-SamePlace name drop_control s = record {
  same_seat = refl;
  same_uid = refl;
  same_active = refl;
  same_state = refl;
  same_leader = refl;
}
serve-SamePlace name (device dev o) s = record {
  same_seat = ground arith;
  same_uid = ground arith;
  same_active = ground arith;
  same_state = ground arith;
  same_leader = ground arith;
}
serve-SamePlace name (return_device dev) s = record {
  same_seat = ground arith;
  same_uid = ground arith;
  same_active = ground arith;
  same_state = ground arith;
  same_leader = ground arith;
}
serve-SamePlace name (type_of t) s = record {
  same_seat = ground arith;
  same_uid = ground arith;
  same_active = ground arith;
  same_state = ground arith;
  same_leader = ground arith;
}
serve-SamePlace name (idle b now) s = record {
  same_seat = refl;
  same_uid = refl;
  same_active = refl;
  same_state = refl;
  same_leader = refl;
}
