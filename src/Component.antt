-- ===== src/Component.antt =====
-- component/component.go: a chat message as a tree of texts. (A struct that holds slices of itself
-- is two data types here.)
pub mod Unmarshal
pub mod RoundTrip
pub mod Parts
use gophermc.Base.{[], ◌++◌}
use gophermc.Wire.Stream.{Bytes}

mutual
  pub data ChatComponent : Type 0 where
    -- `Text`, `With`, `Translate` and `Extra`
    component : Bytes → Components → Bytes → Components → ChatComponent

  pub data Components : Type 0 where
    nil : Components
    cons : ChatComponent → Components → Components

-- `ChatComponent{}`
abbrev pub empty_component : ChatComponent
empty_component = component [] nil [] nil

unfoldable mutual
  pub string : ChatComponent → Bytes
  string (component text with translate extra) = text ++ strings with ++ strings extra

  pub strings : Components → Bytes
  strings nil = []
  strings (cons c cs) = string c ++ strings cs
