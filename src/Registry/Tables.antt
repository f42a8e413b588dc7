-- ===== src/Registry/Tables.antt =====
-- The registry as `init` of protocol/generated_registry.go fills it.
pub mod V1_7To1_8
pub mod V1_9To1_9_2
pub mod V1_9_4To1_10
pub mod V1_11To1_12
pub mod V1_12_1To1_12_2
pub mod V1_13To1_13_1
pub mod V1_13_2To1_14
pub mod V1_14_1To1_14_3
pub mod V1_14_4To1_15
pub mod V1_15_1To1_15_2
pub mod V1_16To1_16_1
pub mod V1_16_2To1_17
pub mod V1_17_1To1_18
pub mod V1_18_2To1_19
pub mod V1_19_2To1_19_3
pub mod V1_19_4To1_20
pub mod V1_20_2
pub mod V1_20_3
pub mod V1_20_5
pub mod V1_21_1
pub mod V1_21_3
pub mod V1_21_4
pub mod V1_21_5
pub mod V1_21_6
pub mod V1_21_8
pub mod V1_21_9
pub mod V1_21_11
unfoldable pub use V1_7To1_8.{definition_v1_7, definition_v1_8}
unfoldable pub use V1_9To1_9_2.{definition_v1_9, definition_v1_9_2}
unfoldable pub use V1_9_4To1_10.{definition_v1_9_4, definition_v1_10}
unfoldable pub use V1_11To1_12.{definition_v1_11, definition_v1_12}
unfoldable pub use V1_12_1To1_12_2.{definition_v1_12_1, definition_v1_12_2}
unfoldable pub use V1_13To1_13_1.{definition_v1_13, definition_v1_13_1}
unfoldable pub use V1_13_2To1_14.{definition_v1_13_2, definition_v1_14}
unfoldable pub use V1_14_1To1_14_3.{definition_v1_14_1, definition_v1_14_3}
unfoldable pub use V1_14_4To1_15.{definition_v1_14_4, definition_v1_15}
unfoldable pub use V1_15_1To1_15_2.{definition_v1_15_1, definition_v1_15_2}
unfoldable pub use V1_16To1_16_1.{definition_v1_16, definition_v1_16_1}
unfoldable pub use V1_16_2To1_17.{definition_v1_16_2, definition_v1_17}
unfoldable pub use V1_17_1To1_18.{definition_v1_17_1, definition_v1_18}
unfoldable pub use V1_18_2To1_19.{definition_v1_18_2, definition_v1_19}
unfoldable pub use V1_19_2To1_19_3.{definition_v1_19_2, definition_v1_19_3}
unfoldable pub use V1_19_4To1_20.{definition_v1_19_4, definition_v1_20}
unfoldable pub use V1_20_2.{definition_v1_20_2}
unfoldable pub use V1_20_3.{definition_v1_20_3}
unfoldable pub use V1_20_5.{definition_v1_20_5}
unfoldable pub use V1_21_1.{definition_v1_21_1}
unfoldable pub use V1_21_3.{definition_v1_21_3}
unfoldable pub use V1_21_4.{definition_v1_21_4}
unfoldable pub use V1_21_5.{definition_v1_21_5}
unfoldable pub use V1_21_6.{definition_v1_21_6}
unfoldable pub use V1_21_8.{definition_v1_21_8}
unfoldable pub use V1_21_9.{definition_v1_21_9}
unfoldable pub use V1_21_11.{definition_v1_21_11}
use gophermc.Base.{List, [], ◌∷◌}
use gophermc.Registry.Definitions.{Definition}
use gophermc.Versions.{
  Version, v1_7, v1_8, v1_9, v1_9_2, v1_9_4, v1_10, v1_11, v1_12, v1_12_1, v1_12_2, v1_13, v1_13_1,
  v1_13_2, v1_14, v1_14_1, v1_14_3, v1_14_4, v1_15, v1_15_1, v1_15_2, v1_16, v1_16_1, v1_16_2,
  v1_17, v1_17_1, v1_18, v1_18_2, v1_19, v1_19_2, v1_19_3, v1_19_4, v1_20, v1_20_2, v1_20_3,
  v1_20_5, v1_21_1, v1_21_3, v1_21_4, v1_21_5, v1_21_6, v1_21_8, v1_21_9, v1_21_11,
}

-- `protocolRegistry` after `init`: the tables of the 43 versions.
unfoldable pub protocol_registry : List (Version × Definition)
unfolding definition_v1_7 definition_v1_8 definition_v1_9 definition_v1_9_2 definition_v1_9_4
    definition_v1_10 definition_v1_11 definition_v1_12 definition_v1_12_1 definition_v1_12_2
    definition_v1_13 definition_v1_13_1 definition_v1_13_2 definition_v1_14 definition_v1_14_1
    definition_v1_14_3 definition_v1_14_4 definition_v1_15 definition_v1_15_1 definition_v1_15_2
    definition_v1_16 definition_v1_16_1 definition_v1_16_2 definition_v1_17 definition_v1_17_1
    definition_v1_18 definition_v1_18_2 definition_v1_19 definition_v1_19_2 definition_v1_19_3
    definition_v1_19_4 definition_v1_20 definition_v1_20_2 definition_v1_20_3 definition_v1_20_5
    definition_v1_21_1 definition_v1_21_3 definition_v1_21_4 definition_v1_21_5 definition_v1_21_6
    definition_v1_21_8 definition_v1_21_9 definition_v1_21_11
protocol_registry =
    (v1_7, definition_v1_7)
    ∷ (v1_8, definition_v1_8)
    ∷ (v1_9, definition_v1_9)
    ∷ (v1_9_2, definition_v1_9_2)
    ∷ (v1_9_4, definition_v1_9_4)
    ∷ (v1_10, definition_v1_10)
    ∷ (v1_11, definition_v1_11)
    ∷ (v1_12, definition_v1_12)
    ∷ (v1_12_1, definition_v1_12_1)
    ∷ (v1_12_2, definition_v1_12_2)
    ∷ (v1_13, definition_v1_13)
    ∷ (v1_13_1, definition_v1_13_1)
    ∷ (v1_13_2, definition_v1_13_2)
    ∷ (v1_14, definition_v1_14)
    ∷ (v1_14_1, definition_v1_14_1)
    ∷ (v1_14_3, definition_v1_14_3)
    ∷ (v1_14_4, definition_v1_14_4)
    ∷ (v1_15, definition_v1_15)
    ∷ (v1_15_1, definition_v1_15_1)
    ∷ (v1_15_2, definition_v1_15_2)
    ∷ (v1_16, definition_v1_16)
    ∷ (v1_16_1, definition_v1_16_1)
    ∷ (v1_16_2, definition_v1_16_2)
    ∷ (v1_17, definition_v1_17)
    ∷ (v1_17_1, definition_v1_17_1)
    ∷ (v1_18, definition_v1_18)
    ∷ (v1_18_2, definition_v1_18_2)
    ∷ (v1_19, definition_v1_19)
    ∷ (v1_19_2, definition_v1_19_2)
    ∷ (v1_19_3, definition_v1_19_3)
    ∷ (v1_19_4, definition_v1_19_4)
    ∷ (v1_20, definition_v1_20)
    ∷ (v1_20_2, definition_v1_20_2)
    ∷ (v1_20_3, definition_v1_20_3)
    ∷ (v1_20_5, definition_v1_20_5)
    ∷ (v1_21_1, definition_v1_21_1)
    ∷ (v1_21_3, definition_v1_21_3)
    ∷ (v1_21_4, definition_v1_21_4)
    ∷ (v1_21_5, definition_v1_21_5)
    ∷ (v1_21_6, definition_v1_21_6)
    ∷ (v1_21_8, definition_v1_21_8)
    ∷ (v1_21_9, definition_v1_21_9)
    ∷ (v1_21_11, definition_v1_21_11)
    ∷ []
