-- ===== src/Client/Join/Encodings.antt =====
-- The encodings of the packets that the client writes in Join.
use gophermc.Base.{ℕ, ◌+◌, ◌<◌, ◌^◌, ◌%◌, ◌≡◌, true, false, [], length, leb, ◌&&◌, arith}
use gophermc.Client.Join.Sizes.{
  Writes, Writes-then, Writes-ignore, Writes-more, Writes-when, Writes-if, Writes-nothing,
  Writes-write, Writes-write_var_int, Writes-write_string, Writes-write_byte, Writes-write_bool,
}
use gophermc.Packets.{
  Library, Moment, serverbound_config_keep_alive, serverbound_cookie_response,
  serverbound_custom_payload, serverbound_select_known_packs, serverbound_finish_configuration,
  serverbound_client_settings, serverbound_login_acknowledged, serverbound_handshake,
  serverbound_login_start,
}
use gophermc.Packets.Encode.{
  encode, encode_client_settings, encode_custom_payload, encode_select_known_packs,
  encode_cookie_response, encode_handshake, encode_login_start,
}
use gophermc.Types.{State, ClientSettings, state_code}
use gophermc.Versions.{Version, v1_7, v1_8, v1_9, v1_17_1, v1_18, v1_19, v1_19_2, v1_20_2, v1_21_3}
use gophermc.Wire.Fields.{big_endian, write_long, write_ushort}
use gophermc.Wire.Stream.{Bytes}

-- A text of settings that is not too long, and numbers that are an int32.
pub record Moderate (s : ClientSettings) : Type 0 where
  pub locale : length s.locale < 2 ^ 16
  pub chat_mode : s.chat_mode < 2 ^ 32
  pub main_hand : s.main_hand < 2 ^ 32

pub settings-Writes :
    (lib : Library) (moment : Moment) (v : Version) (s : ClientSettings)
    → Moderate s
    → Writes (encode lib moment (serverbound_client_settings s) v) (2 ^ 16 + 40)
unfolding encode encode_client_settings
settings-Writes lib moment v s m =
    let locale = Writes-write_string s.locale (omega (arith, m.locale)) in
    Writes-more (omega (arith, m.locale)) (
      Writes-then locale (
        Writes-then (Writes-write_byte s.view) (
          Writes-then
            (Writes-if (leb v v1_7) (Writes-more {b = 5} (omega arith) (Writes-write_byte 1))
              (Writes-when (leb v1_8 v) (Writes-write_var_int s.chat_mode m.chat_mode)))
            (Writes-then (Writes-write_bool s.chat_colors) (
              Writes-then
                (Writes-when (leb v v1_7)
                  (Writes-then (Writes-write_byte _) (Writes-write_bool true)))
                (Writes-then (Writes-when (leb v1_8 v) (Writes-write_byte s.skin_parts)) (
                  Writes-then
                    (Writes-when (leb v1_9 v) (Writes-write_var_int s.main_hand m.main_hand))
                    (Writes-then (Writes-when (leb v1_17_1 v) (Writes-write_bool false)) (
                      Writes-then (Writes-when (leb v1_18 v) (Writes-write_bool true)) (
                        Writes-when (leb v1_21_3 v) (Writes-write_var_int 0 (omega arith))))))))))))

pub payload-Writes :
    (lib : Library) (moment : Moment) (v : Version) (channel bs : Bytes)
    → length channel < 2 ^ 32
    → Writes
        (encode lib moment (serverbound_custom_payload channel bs) v)
        (5 + length channel + length bs)
unfolding encode encode_custom_payload
payload-Writes lib moment v channel bs h =
    Writes-then (Writes-ignore (Writes-write_string channel h)) (Writes-write bs)

pub keep_alive-Writes :
    (lib : Library) (moment : Moment) (v : Version) (id : ℕ)
    → Writes (encode lib moment (serverbound_config_keep_alive id) v) 8
unfolding encode write_long
keep_alive-Writes lib moment v id = Writes-write (big_endian 8 id)

pub known_packs-Writes :
    (lib : Library) (moment : Moment) (v : Version)
    → Writes (encode lib moment (serverbound_select_known_packs []) v) 5
unfolding encode encode_select_known_packs
known_packs-Writes lib moment v = Writes-then (Writes-write_var_int 0 (omega arith)) Writes-nothing

pub cookie-Writes :
    (lib : Library) (moment : Moment) (v : Version) (key : Bytes)
    → length key < 2 ^ 32
    → Writes (encode lib moment (serverbound_cookie_response key false []) v) (6 + length key)
unfolding encode encode_cookie_response
cookie-Writes lib moment v key h = Writes-more (omega arith) (
    Writes-then (Writes-ignore (Writes-write_string key h))
      (Writes-then (Writes-ignore (Writes-write_bool false)) Writes-nothing))

pub finish-Writes :
    (lib : Library) (moment : Moment) (v : Version)
    → Writes (encode lib moment serverbound_finish_configuration v) 0
unfolding encode
finish-Writes lib moment v = Writes-nothing

pub acknowledged-Writes :
    (lib : Library) (moment : Moment) (v : Version)
    → Writes (encode lib moment serverbound_login_acknowledged v) 0
unfolding encode
acknowledged-Writes lib moment v = Writes-nothing

pub handshake-Writes :
    (lib : Library) (moment : Moment) (v : Version) (n : ℕ) (host : Bytes) (port : ℕ) (next : State)
    → n < 2 ^ 32
    → length host < 2 ^ 32
    → Writes (encode lib moment (serverbound_handshake n host port next) v) (17 + length host)
unfolding encode encode_handshake write_ushort
handshake-Writes lib moment v n host port next h l = Writes-more (omega arith) (
    Writes-then (Writes-ignore (Writes-write_var_int n h)) (
      Writes-then (Writes-ignore (Writes-write_string host l)) (
        Writes-then (Writes-ignore (Writes-write (big_endian 2 port)))
          (Writes-write_var_int (state_code next % 2 ^ 32) (omega arith)))))

pub login_start-Writes :
    (lib : Library) (moment : Moment) (v : Version) (name uuid : Bytes)
    → leb v1_20_2 v ≡ true
    → length name < 2 ^ 32
    → Writes
        (encode lib moment (serverbound_login_start name uuid) v)
        (6 + length name + length uuid)
unfolding encode encode_login_start
login_start-Writes lib moment v name uuid new l = rw new (
    Writes-more (omega arith) (
      Writes-then (Writes-write_string name l) (
        Writes-then (Writes-when (leb v1_19 v && leb v v1_19_2) (Writes-write_bool false))
          (Writes-write uuid))))
