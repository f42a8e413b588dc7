-- ===== src/Types.antt =====
-- protocol/types.go: connection states, directions, and the records that packets carry.
pub mod Uuid
use Prim.Native.Char.{code}
use Prim.Native.String.{String}
use gophermc.Base.{
  ℕ, zero, suc, Bool, true, false, [], ◌∷◌, ◌++◌, length, take, replicate, ◌-◌, bit_and, bit_or,
  ◌==◌,
}
use gophermc.Wire.Stream.{Bytes}

-- The bytes of an ASCII text.
abbrev pub codes : String → Bytes
codes String.[] = []
codes (String.◌∷◌ c s) = code c ∷ codes s

-- `type State int`: the five constants, and any other value that a conversion can make.
pub data State : Type 0 where
  handshaking status login play configuration : State
  other : ℕ → State

-- The number behind a state, in the order of the source's `iota`.
abbrev pub state_code : State → ℕ
state_code handshaking = 0
state_code status = 1
state_code login = 2
state_code play = 3
state_code configuration = 4
state_code (other n) = n

-- `State(n)`
unfoldable pub state_of : ℕ → State
state_of zero = handshaking
state_of (suc zero) = status
state_of (suc (suc zero)) = login
state_of (suc (suc (suc zero))) = play
state_of (suc (suc (suc (suc zero)))) = configuration
state_of n = other n

abbrev pub state_eq : State → State → Bool
state_eq s t = state_code s == state_code t

unfoldable pub state_string : State → String
state_string handshaking = "Handshake"
state_string status = "Status"
state_string login = "Login"
state_string configuration = "Configuration"
state_string play = "Play"
state_string (other n) = "Unknown"

-- `type Direction bool`
pub data Direction : Type 0 where
  serverbound clientbound : Direction

abbrev pub direction_eq : Direction → Direction → Bool
direction_eq serverbound serverbound = true
direction_eq clientbound clientbound = true
direction_eq _ _ = false

pub record ClientSettings : Type 0 where
  pub locale : Bytes
  pub view : ℕ
  pub chat_mode : ℕ
  pub chat_colors : Bool
  pub skin_parts : ℕ
  pub main_hand : ℕ

pub record KnownPack : Type 0 where
  pub namespace : Bytes
  pub id : Bytes
  pub version : Bytes

-- A float is the bit pattern that the code copies and writes; its lock has no part in a
-- sequential run.
pub record PlayerPosition : Type 0 where
  pub x : ℕ
  pub y : ℕ
  pub z : ℕ
  pub yaw : ℕ
  pub head_yaw : ℕ
  pub pitch : ℕ
  pub on_ground : Bool

unfoldable pub update : ℕ → ℕ → ℕ → ℕ → ℕ → ℕ → Bool → PlayerPosition → PlayerPosition
update x y z yaw head_yaw pitch ground p = record p {
  x = x;
  y = y;
  z = z;
  yaw = yaw;
  head_yaw = head_yaw;
  pitch = pitch;
  on_ground = ground;
}

abbrev pub get_or : Bytes → ℕ → ℕ → ℕ
get_or [] i d = d
get_or (b ∷ bs) zero d = b
get_or (b ∷ bs) (suc i) d = get_or bs i d

-- `u[i] = f(u[i])`
abbrev pub modify : (ℕ → ℕ) → ℕ → Bytes → Bytes
modify f i [] = []
modify f zero (b ∷ bs) = f b ∷ bs
modify f (suc i) (b ∷ bs) = b ∷ modify f i bs

-- `copy(u[:], bs)` into a zero [16]byte
abbrev pub copy_16 : Bytes → Bytes
copy_16 bs = take 16 bs ++ replicate (16 - length bs) 0

abbrev pub nil_uuid : Bytes
nil_uuid = replicate 16 0

-- `sha1` is crypto/sha1's sum.
unfoldable pub offline_uuid : (Bytes → Bytes) → Bytes → Bytes
offline_uuid sha1 username =
    modify (λ b. bit_or (bit_and b 0x3f) 0x80) 8
      (modify (λ b. bit_or (bit_and b 0x0f) 0x30) 6
        (copy_16 (sha1 (codes "OfflinePlayer:" ++ username))))
