-- ===== src/Registry/Tables/V1_19_2To1_19_3.antt =====
-- protocol/generated_registry.go: the tables of V1_19_2 to V1_19_3.
use gophermc.Base.{[], ◌∷◌}
use gophermc.Types.{handshaking, status, login, play, serverbound, clientbound}
use gophermc.Registry.Definitions.{Definition}

unfoldable pub definition_v1_19_2 : Definition
definition_v1_19_2 = record {
  protocol_version = 760;
  packet_ids =
      (handshaking, (serverbound, ("ServerboundHandshake", 0) ∷ []) ∷ [])
      ∷ (
        login,
        (
          clientbound,
          ("ClientboundDisconnect", 0)
              ∷ ("ClientboundLoginSuccess", 2)
              ∷ ("ClientboundSetCompression", 3)
              ∷ [],
        )
            ∷ (serverbound, ("ServerboundLoginStart", 0) ∷ [])
            ∷ [],
      )
      ∷ (
        play,
        (
          clientbound,
          ("ClientboundCustomPayload", 22)
              ∷ ("ClientboundDisconnect", 25)
              ∷ ("ClientboundJoinGame", 37)
              ∷ ("ClientboundKeepAlive", 32)
              ∷ ("ClientboundPong", 47)
              ∷ [],
        )
            ∷ (
              serverbound,
              ("ServerboundChatMessage", 5)
                  ∷ ("ServerboundClientSettings", 8)
                  ∷ ("ServerboundCustomPayload", 13)
                  ∷ ("ServerboundKeepAlive", 18)
                  ∷ [],
            )
            ∷ [],
      )
      ∷ (
        status,
        (clientbound, ("ClientboundPong", 1) ∷ ("ClientboundStatusResponse", 0) ∷ [])
            ∷ (serverbound, ("ServerboundPing", 1) ∷ ("ServerboundStatusRequest", 0) ∷ [])
            ∷ [],
      )
      ∷ [];
  packet_names =
      (handshaking, (serverbound, (0, "ServerboundHandshake") ∷ []) ∷ [])
      ∷ (
        login,
        (
          clientbound,
          (0, "ClientboundDisconnect")
              ∷ (2, "ClientboundLoginSuccess")
              ∷ (3, "ClientboundSetCompression")
              ∷ [],
        )
            ∷ (serverbound, (0, "ServerboundLoginStart") ∷ [])
            ∷ [],
      )
      ∷ (
        play,
        (
          clientbound,
          (22, "ClientboundCustomPayload")
              ∷ (25, "ClientboundDisconnect")
              ∷ (32, "ClientboundKeepAlive")
              ∷ (37, "ClientboundJoinGame")
              ∷ (47, "ClientboundPong")
              ∷ [],
        )
            ∷ (
              serverbound,
              (5, "ServerboundChatMessage")
                  ∷ (8, "ServerboundClientSettings")
                  ∷ (13, "ServerboundCustomPayload")
                  ∷ (18, "ServerboundKeepAlive")
                  ∷ [],
            )
            ∷ [],
      )
      ∷ (
        status,
        (clientbound, (0, "ClientboundStatusResponse") ∷ (1, "ClientboundPong") ∷ [])
            ∷ (serverbound, (0, "ServerboundStatusRequest") ∷ (1, "ServerboundPing") ∷ [])
            ∷ [],
      )
      ∷ [];
}

unfoldable pub definition_v1_19_3 : Definition
definition_v1_19_3 = record {
  protocol_version = 761;
  packet_ids =
      (handshaking, (serverbound, ("ServerboundHandshake", 0) ∷ []) ∷ [])
      ∷ (
        login,
        (
          clientbound,
          ("ClientboundDisconnect", 0)
              ∷ ("ClientboundLoginSuccess", 2)
              ∷ ("ClientboundSetCompression", 3)
              ∷ [],
        )
            ∷ (serverbound, ("ServerboundLoginStart", 0) ∷ [])
            ∷ [],
      )
      ∷ (
        play,
        (
          clientbound,
          ("ClientboundCustomPayload", 21)
              ∷ ("ClientboundDisconnect", 23)
              ∷ ("ClientboundFeatureFlags", 103)
              ∷ ("ClientboundJoinGame", 36)
              ∷ ("ClientboundKeepAlive", 31)
              ∷ ("ClientboundPong", 46)
              ∷ [],
        )
            ∷ (
              serverbound,
              ("ServerboundChatMessage", 5)
                  ∷ ("ServerboundClientSettings", 7)
                  ∷ ("ServerboundCustomPayload", 12)
                  ∷ ("ServerboundKeepAlive", 17)
                  ∷ [],
            )
            ∷ [],
      )
      ∷ (
        status,
        (clientbound, ("ClientboundPong", 1) ∷ ("ClientboundStatusResponse", 0) ∷ [])
            ∷ (serverbound, ("ServerboundPing", 1) ∷ ("ServerboundStatusRequest", 0) ∷ [])
            ∷ [],
      )
      ∷ [];
  packet_names =
      (handshaking, (serverbound, (0, "ServerboundHandshake") ∷ []) ∷ [])
      ∷ (
        login,
        (
          clientbound,
          (0, "ClientboundDisconnect")
              ∷ (2, "ClientboundLoginSuccess")
              ∷ (3, "ClientboundSetCompression")
              ∷ [],
        )
            ∷ (serverbound, (0, "ServerboundLoginStart") ∷ [])
            ∷ [],
      )
      ∷ (
        play,
        (
          clientbound,
          (21, "ClientboundCustomPayload")
              ∷ (23, "ClientboundDisconnect")
              ∷ (31, "ClientboundKeepAlive")
              ∷ (36, "ClientboundJoinGame")
              ∷ (46, "ClientboundPong")
              ∷ (103, "ClientboundFeatureFlags")
              ∷ [],
        )
            ∷ (
              serverbound,
              (5, "ServerboundChatMessage")
                  ∷ (7, "ServerboundClientSettings")
                  ∷ (12, "ServerboundCustomPayload")
                  ∷ (17, "ServerboundKeepAlive")
                  ∷ [],
            )
            ∷ [],
      )
      ∷ (
        status,
        (clientbound, (0, "ClientboundStatusResponse") ∷ (1, "ClientboundPong") ∷ [])
            ∷ (serverbound, (0, "ServerboundStatusRequest") ∷ (1, "ServerboundPing") ∷ [])
            ∷ [],
      )
      ∷ [];
}
