-- ===== src/Registry/Tables/V1_14_4To1_15.antt =====
-- protocol/generated_registry.go: the tables of V1_14_4 to V1_15.
use gophermc.Base.{[], ◌∷◌}
use gophermc.Types.{handshaking, status, login, play, serverbound, clientbound}
use gophermc.Registry.Definitions.{Definition}

unfoldable pub definition_v1_14_4 : Definition
definition_v1_14_4 = record {
  protocol_version = 498;
  packet_ids =
      (handshaking, (serverbound, ("ServerboundHandshake", 0) ∷ []) ∷ [])
      ∷ (
        login,
        (
          clientbound,
          ("ClientboundDisconnect", 0)
              ∷ ("ClientboundLoginSuccess", 2)
              ∷ ("ClientboundSetCompression", 3)
              ∷ [],
        )
            ∷ (serverbound, ("ServerboundLoginStart", 0) ∷ [])
            ∷ [],
      )
      ∷ (
        play,
        (
          clientbound,
          ("ClientboundCustomPayload", 24)
              ∷ ("ClientboundDisconnect", 26)
              ∷ ("ClientboundJoinGame", 37)
              ∷ ("ClientboundKeepAlive", 32)
              ∷ ("ServerboundChatMessage", 14)
              ∷ [],
        )
            ∷ (
              serverbound,
              ("ServerboundChatMessage", 3)
                  ∷ ("ServerboundClientSettings", 5)
                  ∷ ("ServerboundCustomPayload", 11)
                  ∷ ("ServerboundKeepAlive", 15)
                  ∷ [],
            )
            ∷ [],
      )
      ∷ (
        status,
        (clientbound, ("ClientboundPong", 1) ∷ ("ClientboundStatusResponse", 0) ∷ [])
            ∷ (serverbound, ("ServerboundPing", 1) ∷ ("ServerboundStatusRequest", 0) ∷ [])
            ∷ [],
      )
      ∷ [];
  packet_names =
      (handshaking, (serverbound, (0, "ServerboundHandshake") ∷ []) ∷ [])
      ∷ (
        login,
        (
          clientbound,
          (0, "ClientboundDisconnect")
              ∷ (2, "ClientboundLoginSuccess")
              ∷ (3, "ClientboundSetCompression")
              ∷ [],
        )
            ∷ (serverbound, (0, "ServerboundLoginStart") ∷ [])
            ∷ [],
      )
      ∷ (
        play,
        (
          clientbound,
          (14, "ServerboundChatMessage")
              ∷ (24, "ClientboundCustomPayload")
              ∷ (26, "ClientboundDisconnect")
              ∷ (32, "ClientboundKeepAlive")
              ∷ (37, "ClientboundJoinGame")
              ∷ [],
        )
            ∷ (
              serverbound,
              (3, "ServerboundChatMessage")
                  ∷ (5, "ServerboundClientSettings")
                  ∷ (11, "ServerboundCustomPayload")
                  ∷ (15, "ServerboundKeepAlive")
                  ∷ [],
            )
            ∷ [],
      )
      ∷ (
        status,
        (clientbound, (0, "ClientboundStatusResponse") ∷ (1, "ClientboundPong") ∷ [])
            ∷ (serverbound, (0, "ServerboundStatusRequest") ∷ (1, "ServerboundPing") ∷ [])
            ∷ [],
      )
      ∷ [];
}

unfoldable pub definition_v1_15 : Definition
definition_v1_15 = record {
  protocol_version = 573;
  packet_ids =
      (handshaking, (serverbound, ("ServerboundHandshake", 0) ∷ []) ∷ [])
      ∷ (
        login,
        (
          clientbound,
          ("ClientboundDisconnect", 0)
              ∷ ("ClientboundLoginSuccess", 2)
              ∷ ("ClientboundSetCompression", 3)
              ∷ [],
        )
            ∷ (serverbound, ("ServerboundLoginStart", 0) ∷ [])
            ∷ [],
      )
      ∷ (
        play,
        (
          clientbound,
          ("ClientboundCustomPayload", 25)
              ∷ ("ClientboundDisconnect", 27)
              ∷ ("ClientboundJoinGame", 38)
              ∷ ("ClientboundKeepAlive", 33)
              ∷ ("ServerboundChatMessage", 15)
              ∷ [],
        )
            ∷ (
              serverbound,
              ("ServerboundChatMessage", 3)
                  ∷ ("ServerboundClientSettings", 5)
                  ∷ ("ServerboundCustomPayload", 11)
                  ∷ ("ServerboundKeepAlive", 15)
                  ∷ [],
            )
            ∷ [],
      )
      ∷ (
        status,
        (clientbound, ("ClientboundPong", 1) ∷ ("ClientboundStatusResponse", 0) ∷ [])
            ∷ (serverbound, ("ServerboundPing", 1) ∷ ("ServerboundStatusRequest", 0) ∷ [])
            ∷ [],
      )
      ∷ [];
  packet_names =
      (handshaking, (serverbound, (0, "ServerboundHandshake") ∷ []) ∷ [])
      ∷ (
        login,
        (
          clientbound,
          (0, "ClientboundDisconnect")
              ∷ (2, "ClientboundLoginSuccess")
              ∷ (3, "ClientboundSetCompression")
              ∷ [],
        )
            ∷ (serverbound, (0, "ServerboundLoginStart") ∷ [])
            ∷ [],
      )
      ∷ (
        play,
        (
          clientbound,
          (15, "ServerboundChatMessage")
              ∷ (25, "ClientboundCustomPayload")
              ∷ (27, "ClientboundDisconnect")
              ∷ (33, "ClientboundKeepAlive")
              ∷ (38, "ClientboundJoinGame")
              ∷ [],
        )
            ∷ (
              serverbound,
              (3, "ServerboundChatMessage")
                  ∷ (5, "ServerboundClientSettings")
                  ∷ (11, "ServerboundCustomPayload")
                  ∷ (15, "ServerboundKeepAlive")
                  ∷ [],
            )
            ∷ [],
      )
      ∷ (
        status,
        (clientbound, (0, "ClientboundStatusResponse") ∷ (1, "ClientboundPong") ∷ [])
            ∷ (serverbound, (0, "ServerboundStatusRequest") ∷ (1, "ServerboundPing") ∷ [])
            ∷ [],
      )
      ∷ [];
}
