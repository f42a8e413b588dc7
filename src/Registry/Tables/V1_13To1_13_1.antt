-- ===== src/Registry/Tables/V1_13To1_13_1.antt =====
-- protocol/generated_registry.go: the tables of V1_13 to V1_13_1.
use gophermc.Base.{[], ◌∷◌}
use gophermc.Types.{handshaking, status, login, play, serverbound, clientbound}
use gophermc.Registry.Definitions.{Definition}

unfoldable pub definition_v1_13 : Definition
definition_v1_13 = record {
  protocol_version = 393;
  packet_ids =
      (handshaking, (serverbound, ("ServerboundHandshake", 0) ∷ []) ∷ [])
      ∷ (
        login,
        (
          clientbound,
          ("ClientboundDisconnect", 0)
              ∷ ("ClientboundLoginSuccess", 2)
              ∷ ("ClientboundSetCompression", 3)
              ∷ [],
        )
            ∷ (serverbound, ("ServerboundLoginStart", 0) ∷ [])
            ∷ [],
      )
      ∷ (
        play,
        (
          clientbound,
          ("ClientboundCustomPayload", 25)
              ∷ ("ClientboundDisconnect", 27)
              ∷ ("ClientboundJoinGame", 37)
              ∷ ("ClientboundKeepAlive", 33)
              ∷ ("ServerboundChatMessage", 14)
              ∷ [],
        )
            ∷ (
              serverbound,
              ("ServerboundChatMessage", 2)
                  ∷ ("ServerboundClientSettings", 4)
                  ∷ ("ServerboundCustomPayload", 10)
                  ∷ ("ServerboundKeepAlive", 14)
                  ∷ [],
            )
            ∷ [],
      )
      ∷ (
        status,
        (clientbound, ("ClientboundPong", 1) ∷ ("ClientboundStatusResponse", 0) ∷ [])
            ∷ (serverbound, ("ServerboundPing", 1) ∷ ("ServerboundStatusRequest", 0) ∷ [])
            ∷ [],
      )
      ∷ [];
  packet_names =
      (handshaking, (serverbound, (0, "ServerboundHandshake") ∷ []) ∷ [])
      ∷ (
        login,
        (
          clientbound,
          (0, "ClientboundDisconnect")
              ∷ (2, "ClientboundLoginSuccess")
              ∷ (3, "ClientboundSetCompression")
              ∷ [],
        )
            ∷ (serverbound, (0, "ServerboundLoginStart") ∷ [])
            ∷ [],
      )
      ∷ (
        play,
        (
          clientbound,
          (14, "ServerboundChatMessage")
              ∷ (25, "ClientboundCustomPayload")
              ∷ (27, "ClientboundDisconnect")
              ∷ (33, "ClientboundKeepAlive")
              ∷ (37, "ClientboundJoinGame")
              ∷ [],
        )
            ∷ (
              serverbound,
              (2, "ServerboundChatMessage")
                  ∷ (4, "ServerboundClientSettings")
                  ∷ (10, "ServerboundCustomPayload")
                  ∷ (14, "ServerboundKeepAlive")
                  ∷ [],
            )
            ∷ [],
      )
      ∷ (
        status,
        (clientbound, (0, "ClientboundStatusResponse") ∷ (1, "ClientboundPong") ∷ [])
            ∷ (serverbound, (0, "ServerboundStatusRequest") ∷ (1, "ServerboundPing") ∷ [])
            ∷ [],
      )
      ∷ [];
}

unfoldable pub definition_v1_13_1 : Definition
definition_v1_13_1 = record {
  protocol_version = 401;
  packet_ids =
      (handshaking, (serverbound, ("ServerboundHandshake", 0) ∷ []) ∷ [])
      ∷ (
        login,
        (
          clientbound,
          ("ClientboundDisconnect", 0)
              ∷ ("ClientboundLoginSuccess", 2)
              ∷ ("ClientboundSetCompression", 3)
              ∷ [],
        )
            ∷ (serverbound, ("ServerboundLoginStart", 0) ∷ [])
            ∷ [],
      )
      ∷ (
        play,
        (
          clientbound,
          ("ClientboundCustomPayload", 25)
              ∷ ("ClientboundDisconnect", 27)
              ∷ ("ClientboundJoinGame", 37)
              ∷ ("ClientboundKeepAlive", 33)
              ∷ ("ServerboundChatMessage", 14)
              ∷ [],
        )
            ∷ (
              serverbound,
              ("ServerboundChatMessage", 2)
                  ∷ ("ServerboundClientSettings", 4)
                  ∷ ("ServerboundCustomPayload", 10)
                  ∷ ("ServerboundKeepAlive", 14)
                  ∷ [],
            )
            ∷ [],
      )
      ∷ (
        status,
        (clientbound, ("ClientboundPong", 1) ∷ ("ClientboundStatusResponse", 0) ∷ [])
            ∷ (serverbound, ("ServerboundPing", 1) ∷ ("ServerboundStatusRequest", 0) ∷ [])
            ∷ [],
      )
      ∷ [];
  packet_names =
      (handshaking, (serverbound, (0, "ServerboundHandshake") ∷ []) ∷ [])
      ∷ (
        login,
        (
          clientbound,
          (0, "ClientboundDisconnect")
              ∷ (2, "ClientboundLoginSuccess")
              ∷ (3, "ClientboundSetCompression")
              ∷ [],
        )
            ∷ (serverbound, (0, "ServerboundLoginStart") ∷ [])
            ∷ [],
      )
      ∷ (
        play,
        (
          clientbound,
          (14, "ServerboundChatMessage")
              ∷ (25, "ClientboundCustomPayload")
              ∷ (27, "ClientboundDisconnect")
              ∷ (33, "ClientboundKeepAlive")
              ∷ (37, "ClientboundJoinGame")
              ∷ [],
        )
            ∷ (
              serverbound,
              (2, "ServerboundChatMessage")
                  ∷ (4, "ServerboundClientSettings")
                  ∷ (10, "ServerboundCustomPayload")
                  ∷ (14, "ServerboundKeepAlive")
                  ∷ [],
            )
            ∷ [],
      )
      ∷ (
        status,
        (clientbound, (0, "ClientboundStatusResponse") ∷ (1, "ClientboundPong") ∷ [])
            ∷ (serverbound, (0, "ServerboundStatusRequest") ∷ (1, "ServerboundPing") ∷ [])
            ∷ [],
      )
      ∷ [];
}
