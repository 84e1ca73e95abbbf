-- ===== src/Model/Machine.antt =====
-- Machines, their records and events: crates/ployz-types/src/model.rs. A subnet is a value of a
-- type `Net` that the program takes from a crate, and is a parameter here. Addresses are numbers.
use ployz.Prelude.{
  ℕ, Option, none, List, [], Eq, Bool, true, ◌==◌, ◌&&◌, ◌≡◌, option_eq, list_eq, pair_eq, nat_eq,
  text_eq, ==_true, arith,
}
use ployz.Prelude.Map.{Map}
use ployz.Prelude.Text.{Text}

abbrev pub MachineId : Type 0
MachineId = Text

-- The 32 bytes of a key.
abbrev pub PublicKey : Type 0
PublicKey = List ℕ

-- An IPv6 address, a number of 128 bits.
abbrev pub OverlayIp : Type 0
OverlayIp = ℕ

pub data MachineStatus : Type 0 where
  unknown up down : MachineStatus

pub data Participation : Type 0 where
  disabled enabled draining : Participation

MachineStatus-discrete : Discrete MachineStatus
MachineStatus-discrete = hlevel

Participation-discrete : Discrete Participation
Participation-discrete = hlevel

instance unfoldable pub status_eq : Eq MachineStatus
unfolding MachineStatus-discrete
status_eq = record { dec = MachineStatus-discrete }

instance unfoldable pub participation_eq : Eq Participation
unfolding Participation-discrete
participation_eq = record { dec = Participation-discrete }

pub record MachineRecord (Net : Type 0) : Type 0 where
  pub id : MachineId
  pub public_key : PublicKey
  pub overlay_ip : OverlayIp
  pub subnet : Option Net
  pub bridge_ip : Option OverlayIp
  pub endpoints : List Text
  pub status : MachineStatus
  pub participation : Participation
  pub last_heartbeat : ℕ
  pub created_at : ℕ
  pub updated_at : ℕ
  pub labels : Map Text Text

abbrev texts_same : List Text → List Text → Bool
texts_same a b = ◌==◌ ⦃e = list_eq⦄ a b

abbrev labels_same : Map Text Text → Map Text Text → Bool
labels_same a b = ◌==◌ ⦃e = list_eq⦄ a b

-- The derived `==` of records.
unfoldable pub same_record :
    {Net : Type 0} ⦃e : Eq Net⦄ → MachineRecord Net → MachineRecord Net → Bool
unfolding option_eq list_eq pair_eq text_eq nat_eq status_eq participation_eq
same_record a b =
    a.id == b.id
    && a.public_key == b.public_key
    && a.overlay_ip == b.overlay_ip
    && a.subnet == b.subnet
    && a.bridge_ip == b.bridge_ip
    && texts_same a.endpoints b.endpoints
    && a.status == b.status
    && a.participation == b.participation
    && a.last_heartbeat == b.last_heartbeat
    && a.created_at == b.created_at
    && a.updated_at == b.updated_at
    && labels_same a.labels b.labels

pub data MachineEvent (Net : Type 0) : Type 0 where
  added updated removed : MachineRecord Net → MachineEvent Net

-- The record before the control plane has filled it.
abbrev pub seed :
    {Net : Type 0} → MachineId → PublicKey → OverlayIp → Option Net → List Text → MachineRecord Net
seed id public_key overlay_ip subnet endpoints = record {
  id = id;
  public_key = public_key;
  overlay_ip = overlay_ip;
  subnet = subnet;
  bridge_ip = none;
  endpoints = endpoints;
  status = unknown;
  participation = disabled;
  last_heartbeat = 0;
  created_at = 0;
  updated_at = 0;
  labels = [];
}

and_true : (a b : Bool) → (a && b) ≡ true → (a ≡ true) × (b ≡ true)
and_true a b h = ground arith

pub same_record-eq :
    {Net : Type 0} ⦃e : Eq Net⦄ (a b : MachineRecord Net) → same_record a b ≡ true → a ≡ b
unfolding same_record
same_record-eq a b h =
    let q1 = and_true _ _ h in
    let q2 = and_true _ _ q1.0 in
    let q3 = and_true _ _ q2.0 in
    let q4 = and_true _ _ q3.0 in
    let q5 = and_true _ _ q4.0 in
    let q6 = and_true _ _ q5.0 in
    let q7 = and_true _ _ q6.0 in
    let q8 = and_true _ _ q7.0 in
    let q9 = and_true _ _ q8.0 in
    let q10 = and_true _ _ q9.0 in
    let q11 = and_true _ _ q10.0 in
    λ i. record {
      id = ==_true a.id b.id q11.0 i;
      public_key = ==_true a.public_key b.public_key q11.1 i;
      overlay_ip = ==_true a.overlay_ip b.overlay_ip q10.1 i;
      subnet = ==_true a.subnet b.subnet q9.1 i;
      bridge_ip = ==_true a.bridge_ip b.bridge_ip q8.1 i;
      endpoints = ==_true ⦃e = list_eq⦄ a.endpoints b.endpoints q7.1 i;
      status = ==_true a.status b.status q6.1 i;
      participation = ==_true a.participation b.participation q5.1 i;
      last_heartbeat = ==_true a.last_heartbeat b.last_heartbeat q4.1 i;
      created_at = ==_true a.created_at b.created_at q3.1 i;
      updated_at = ==_true a.updated_at b.updated_at q2.1 i;
      labels = ==_true ⦃e = list_eq⦄ a.labels b.labels q1.1 i;
    }
