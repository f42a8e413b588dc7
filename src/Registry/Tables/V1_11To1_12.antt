-- ===== src/Registry/Tables/V1_11To1_12.antt =====
-- protocol/generated_registry.go: the tables of V1_11 to V1_12.
use gophermc.Base.{[], ◌∷◌}
use gophermc.Types.{handshaking, status, login, play, serverbound, clientbound}
use gophermc.Registry.Definitions.{Definition}

unfoldable pub definition_v1_11 : Definition
definition_v1_11 = record {
  protocol_version = 315;
  packet_ids =
      (handshaking, (serverbound, ("ServerboundHandshake", 0) ∷ []) ∷ [])
      ∷ (
        login,
        (
          clientbound,
          ("ClientboundDisconnect", 0)
              ∷ ("ClientboundLoginSuccess", 2)
              ∷ ("ClientboundSetCompression", 3)
              ∷ [],
        )
            ∷ (serverbound, ("ServerboundLoginStart", 0) ∷ [])
            ∷ [],
      )
      ∷ (
        play,
        (
          clientbound,
          ("ClientboundCustomPayload", 24)
              ∷ ("ClientboundDisconnect", 26)
              ∷ ("ClientboundJoinGame", 35)
              ∷ ("ClientboundKeepAlive", 31)
              ∷ ("ServerboundChatMessage", 15)
              ∷ [],
        )
            ∷ (
              serverbound,
              ("ServerboundChatMessage", 2)
                  ∷ ("ServerboundClientSettings", 4)
                  ∷ ("ServerboundCustomPayload", 9)
                  ∷ ("ServerboundKeepAlive", 11)
                  ∷ [],
            )
            ∷ [],
      )
      ∷ (
        status,
        (clientbound, ("ClientboundPong", 1) ∷ ("ClientboundStatusResponse", 0) ∷ [])
            ∷ (serverbound, ("ServerboundPing", 1) ∷ ("ServerboundStatusRequest", 0) ∷ [])
            ∷ [],
      )
      ∷ [];
  packet_names =
      (handshaking, (serverbound, (0, "ServerboundHandshake") ∷ []) ∷ [])
      ∷ (
        login,
        (
          clientbound,
          (0, "ClientboundDisconnect")
              ∷ (2, "ClientboundLoginSuccess")
              ∷ (3, "ClientboundSetCompression")
              ∷ [],
        )
            ∷ (serverbound, (0, "ServerboundLoginStart") ∷ [])
            ∷ [],
      )
      ∷ (
        play,
        (
          clientbound,
          (15, "ServerboundChatMessage")
              ∷ (24, "ClientboundCustomPayload")
              ∷ (26, "ClientboundDisconnect")
              ∷ (31, "ClientboundKeepAlive")
              ∷ (35, "ClientboundJoinGame")
              ∷ [],
        )
            ∷ (
              serverbound,
              (2, "ServerboundChatMessage")
                  ∷ (4, "ServerboundClientSettings")
                  ∷ (9, "ServerboundCustomPayload")
                  ∷ (11, "ServerboundKeepAlive")
                  ∷ [],
            )
            ∷ [],
      )
      ∷ (
        status,
        (clientbound, (0, "ClientboundStatusResponse") ∷ (1, "ClientboundPong") ∷ [])
            ∷ (serverbound, (0, "ServerboundStatusRequest") ∷ (1, "ServerboundPing") ∷ [])
            ∷ [],
      )
      ∷ [];
}

unfoldable pub definition_v1_12 : Definition
definition_v1_12 = record {
  protocol_version = 335;
  packet_ids =
      (handshaking, (serverbound, ("ServerboundHandshake", 0) ∷ []) ∷ [])
      ∷ (
        login,
        (
          clientbound,
          ("ClientboundDisconnect", 0)
              ∷ ("ClientboundLoginSuccess", 2)
              ∷ ("ClientboundSetCompression", 3)
              ∷ [],
        )
            ∷ (serverbound, ("ServerboundLoginStart", 0) ∷ [])
            ∷ [],
      )
      ∷ (
        play,
        (
          clientbound,
          ("ClientboundCustomPayload", 24)
              ∷ ("ClientboundDisconnect", 26)
              ∷ ("ClientboundJoinGame", 35)
              ∷ ("ClientboundKeepAlive", 31)
              ∷ ("ServerboundChatMessage", 15)
              ∷ [],
        )
            ∷ (
              serverbound,
              ("ServerboundChatMessage", 3)
                  ∷ ("ServerboundClientSettings", 5)
                  ∷ ("ServerboundCustomPayload", 10)
                  ∷ ("ServerboundKeepAlive", 12)
                  ∷ [],
            )
            ∷ [],
      )
      ∷ (
        status,
        (clientbound, ("ClientboundPong", 1) ∷ ("ClientboundStatusResponse", 0) ∷ [])
            ∷ (serverbound, ("ServerboundPing", 1) ∷ ("ServerboundStatusRequest", 0) ∷ [])
            ∷ [],
      )
      ∷ [];
  packet_names =
      (handshaking, (serverbound, (0, "ServerboundHandshake") ∷ []) ∷ [])
      ∷ (
        login,
        (
          clientbound,
          (0, "ClientboundDisconnect")
              ∷ (2, "ClientboundLoginSuccess")
              ∷ (3, "ClientboundSetCompression")
              ∷ [],
        )
            ∷ (serverbound, (0, "ServerboundLoginStart") ∷ [])
            ∷ [],
      )
      ∷ (
        play,
        (
          clientbound,
          (15, "ServerboundChatMessage")
              ∷ (24, "ClientboundCustomPayload")
              ∷ (26, "ClientboundDisconnect")
              ∷ (31, "ClientboundKeepAlive")
              ∷ (35, "ClientboundJoinGame")
              ∷ [],
        )
            ∷ (
              serverbound,
              (3, "ServerboundChatMessage")
                  ∷ (5, "ServerboundClientSettings")
                  ∷ (10, "ServerboundCustomPayload")
                  ∷ (12, "ServerboundKeepAlive")
                  ∷ [],
            )
            ∷ [],
      )
      ∷ (
        status,
        (clientbound, (0, "ClientboundStatusResponse") ∷ (1, "ClientboundPong") ∷ [])
            ∷ (serverbound, (0, "ServerboundStatusRequest") ∷ (1, "ServerboundPing") ∷ [])
            ∷ [],
      )
      ∷ [];
}
