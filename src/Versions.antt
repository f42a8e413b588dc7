-- ===== src/Versions.antt =====
-- protocol/generated_versions.go: the versions that the client knows, oldest first. A `Version` is
-- the place in that list. (The source's `int` could be negative; none of its constants is.)
pub mod Release
pub mod FromString
use gophermc.Base.{ℕ, List, [], ◌∷◌}
use gophermc.Types.{codes}
use gophermc.Wire.Stream.{Bytes}

abbrev pub Version : Type 0
Version = ℕ

abbrev pub v1_7 : Version
v1_7 = 0

abbrev pub v1_8 : Version
v1_8 = 1

abbrev pub v1_9 : Version
v1_9 = 2

abbrev pub v1_9_2 : Version
v1_9_2 = 3

abbrev pub v1_9_4 : Version
v1_9_4 = 4

abbrev pub v1_10 : Version
v1_10 = 5

abbrev pub v1_11 : Version
v1_11 = 6

abbrev pub v1_12 : Version
v1_12 = 7

abbrev pub v1_12_1 : Version
v1_12_1 = 8

abbrev pub v1_12_2 : Version
v1_12_2 = 9

abbrev pub v1_13 : Version
v1_13 = 10

abbrev pub v1_13_1 : Version
v1_13_1 = 11

abbrev pub v1_13_2 : Version
v1_13_2 = 12

abbrev pub v1_14 : Version
v1_14 = 13

abbrev pub v1_14_1 : Version
v1_14_1 = 14

abbrev pub v1_14_3 : Version
v1_14_3 = 15

abbrev pub v1_14_4 : Version
v1_14_4 = 16

abbrev pub v1_15 : Version
v1_15 = 17

abbrev pub v1_15_1 : Version
v1_15_1 = 18

abbrev pub v1_15_2 : Version
v1_15_2 = 19

abbrev pub v1_16 : Version
v1_16 = 20

abbrev pub v1_16_1 : Version
v1_16_1 = 21

abbrev pub v1_16_2 : Version
v1_16_2 = 22

abbrev pub v1_17 : Version
v1_17 = 23

abbrev pub v1_17_1 : Version
v1_17_1 = 24

abbrev pub v1_18 : Version
v1_18 = 25

abbrev pub v1_18_2 : Version
v1_18_2 = 26

abbrev pub v1_19 : Version
v1_19 = 27

abbrev pub v1_19_2 : Version
v1_19_2 = 28

abbrev pub v1_19_3 : Version
v1_19_3 = 29

abbrev pub v1_19_4 : Version
v1_19_4 = 30

abbrev pub v1_20 : Version
v1_20 = 31

abbrev pub v1_20_2 : Version
v1_20_2 = 32

abbrev pub v1_20_3 : Version
v1_20_3 = 33

abbrev pub v1_20_5 : Version
v1_20_5 = 34

abbrev pub v1_21_1 : Version
v1_21_1 = 35

abbrev pub v1_21_3 : Version
v1_21_3 = 36

abbrev pub v1_21_4 : Version
v1_21_4 = 37

abbrev pub v1_21_5 : Version
v1_21_5 = 38

abbrev pub v1_21_6 : Version
v1_21_6 = 39

abbrev pub v1_21_8 : Version
v1_21_8 = 40

abbrev pub v1_21_9 : Version
v1_21_9 = 41

abbrev pub v1_21_11 : Version
v1_21_11 = 42

abbrev pub first : Version
first = v1_7

abbrev pub latest : Version
latest = v1_21_11

-- The map `stringToVersion`, in the order of the source.
unfoldable pub string_to_version : List (Bytes × Version)
string_to_version =
    (codes "1.7", v1_7)
    ∷ (codes "1.8", v1_8)
    ∷ (codes "1.9", v1_9)
    ∷ (codes "1.9.2", v1_9_2)
    ∷ (codes "1.9.4", v1_9_4)
    ∷ (codes "1.10", v1_10)
    ∷ (codes "1.11", v1_11)
    ∷ (codes "1.12", v1_12)
    ∷ (codes "1.12.1", v1_12_1)
    ∷ (codes "1.12.2", v1_12_2)
    ∷ (codes "1.13", v1_13)
    ∷ (codes "1.13.1", v1_13_1)
    ∷ (codes "1.13.2", v1_13_2)
    ∷ (codes "1.14", v1_14)
    ∷ (codes "1.14.1", v1_14_1)
    ∷ (codes "1.14.3", v1_14_3)
    ∷ (codes "1.14.4", v1_14_4)
    ∷ (codes "1.15", v1_15)
    ∷ (codes "1.15.1", v1_15_1)
    ∷ (codes "1.15.2", v1_15_2)
    ∷ (codes "1.16", v1_16)
    ∷ (codes "1.16.1", v1_16_1)
    ∷ (codes "1.16.2", v1_16_2)
    ∷ (codes "1.17", v1_17)
    ∷ (codes "1.17.1", v1_17_1)
    ∷ (codes "1.18", v1_18)
    ∷ (codes "1.18.2", v1_18_2)
    ∷ (codes "1.19", v1_19)
    ∷ (codes "1.19.2", v1_19_2)
    ∷ (codes "1.19.3", v1_19_3)
    ∷ (codes "1.19.4", v1_19_4)
    ∷ (codes "1.20", v1_20)
    ∷ (codes "1.20.2", v1_20_2)
    ∷ (codes "1.20.3", v1_20_3)
    ∷ (codes "1.20.5", v1_20_5)
    ∷ (codes "1.21.1", v1_21_1)
    ∷ (codes "1.21.3", v1_21_3)
    ∷ (codes "1.21.4", v1_21_4)
    ∷ (codes "1.21.5", v1_21_5)
    ∷ (codes "1.21.6", v1_21_6)
    ∷ (codes "1.21.8", v1_21_8)
    ∷ (codes "1.21.9", v1_21_9)
    ∷ (codes "1.21.11", v1_21_11)
    ∷ []
