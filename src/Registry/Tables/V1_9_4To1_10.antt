-- ===== src/Registry/Tables/V1_9_4To1_10.antt =====
-- protocol/generated_registry.go: the tables of V1_9_4 to V1_10.
use gophermc.Base.{[], ◌∷◌}
use gophermc.Types.{handshaking, status, login, play, serverbound, clientbound}
use gophermc.Registry.Definitions.{Definition}

unfoldable pub definition_v1_9_4 : Definition
definition_v1_9_4 = record {
  protocol_version = 110;
  packet_ids =
      (handshaking, (serverbound, ("ServerboundHandshake", 0) ∷ []) ∷ [])
      ∷ (
        login,
        (
          clientbound,
          ("ClientboundDisconnect", 0)
              ∷ ("ClientboundLoginSuccess", 2)
              ∷ ("ClientboundSetCompression", 3)
              ∷ [],
        )
            ∷ (serverbound, ("ServerboundLoginStart", 0) ∷ [])
            ∷ [],
      )
      ∷ (
        play,
        (
          clientbound,
          ("ClientboundCustomPayload", 24)
              ∷ ("ClientboundDisconnect", 26)
              ∷ ("ClientboundJoinGame", 35)
              ∷ ("ClientboundKeepAlive", 31)
              ∷ ("ServerboundChatMessage", 15)
              ∷ [],
        )
            ∷ (
              serverbound,
              ("ServerboundChatMessage", 2)
                  ∷ ("ServerboundClientSettings", 4)
                  ∷ ("ServerboundCustomPayload", 9)
                  ∷ ("ServerboundKeepAlive", 11)
                  ∷ [],
            )
            ∷ [],
      )
      ∷ (
        status,
        (clientbound, ("ClientboundPong", 1) ∷ ("ClientboundStatusResponse", 0) ∷ [])
            ∷ (serverbound, ("ServerboundPing", 1) ∷ ("ServerboundStatusRequest", 0) ∷ [])
            ∷ [],
      )
      ∷ [];
  packet_names =
      (handshaking, (serverbound, (0, "ServerboundHandshake") ∷ []) ∷ [])
      ∷ (
        login,
        (
          clientbound,
          (0, "ClientboundDisconnect")
              ∷ (2, "ClientboundLoginSuccess")
              ∷ (3, "ClientboundSetCompression")
              ∷ [],
        )
            ∷ (serverbound, (0, "ServerboundLoginStart") ∷ [])
            ∷ [],
      )
      ∷ (
        play,
        (
          clientbound,
          (15, "ServerboundChatMessage")
              ∷ (24, "ClientboundCustomPayload")
              ∷ (26, "ClientboundDisconnect")
              ∷ (31, "ClientboundKeepAlive")
              ∷ (35, "ClientboundJoinGame")
              ∷ [],
        )
            ∷ (
              serverbound,
              (2, "ServerboundChatMessage")
                  ∷ (4, "ServerboundClientSettings")
                  ∷ (9, "ServerboundCustomPayload")
                  ∷ (11, "ServerboundKeepAlive")
                  ∷ [],
            )
            ∷ [],
      )
      ∷ (
        status,
        (clientbound, (0, "ClientboundStatusResponse") ∷ (1, "ClientboundPong") ∷ [])
            ∷ (serverbound, (0, "ServerboundStatusRequest") ∷ (1, "ServerboundPing") ∷ [])
            ∷ [],
      )
      ∷ [];
}

unfoldable pub definition_v1_10 : Definition
definition_v1_10 = record {
  protocol_version = 210;
  packet_ids =
      (handshaking, (serverbound, ("ServerboundHandshake", 0) ∷ []) ∷ [])
      ∷ (
        login,
        (
          clientbound,
          ("ClientboundDisconnect", 0)
              ∷ ("ClientboundLoginSuccess", 2)
              ∷ ("ClientboundSetCompression", 3)
              ∷ [],
        )
            ∷ (serverbound, ("ServerboundLoginStart", 0) ∷ [])
            ∷ [],
      )
      ∷ (
        play,
        (
          clientbound,
          ("ClientboundCustomPayload", 24)
              ∷ ("ClientboundDisconnect", 26)
              ∷ ("ClientboundJoinGame", 35)
              ∷ ("ClientboundKeepAlive", 31)
              ∷ ("ServerboundChatMessage", 15)
              ∷ [],
        )
            ∷ (
              serverbound,
              ("ServerboundChatMessage", 2)
                  ∷ ("ServerboundClientSettings", 4)
                  ∷ ("ServerboundCustomPayload", 9)
                  ∷ ("ServerboundKeepAlive", 11)
                  ∷ [],
            )
            ∷ [],
      )
      ∷ (
        status,
        (clientbound, ("ClientboundPong", 1) ∷ ("ClientboundStatusResponse", 0) ∷ [])
            ∷ (serverbound, ("ServerboundPing", 1) ∷ ("ServerboundStatusRequest", 0) ∷ [])
            ∷ [],
      )
      ∷ [];
  packet_names =
      (handshaking, (serverbound, (0, "ServerboundHandshake") ∷ []) ∷ [])
      ∷ (
        login,
        (
          clientbound,
          (0, "ClientboundDisconnect")
              ∷ (2, "ClientboundLoginSuccess")
              ∷ (3, "ClientboundSetCompression")
              ∷ [],
        )
            ∷ (serverbound, (0, "ServerboundLoginStart") ∷ [])
            ∷ [],
      )
      ∷ (
        play,
        (
          clientbound,
          (15, "ServerboundChatMessage")
              ∷ (24, "ClientboundCustomPayload")
              ∷ (26, "ClientboundDisconnect")
              ∷ (31, "ClientboundKeepAlive")
              ∷ (35, "ClientboundJoinGame")
              ∷ [],
        )
            ∷ (
              serverbound,
              (2, "ServerboundChatMessage")
                  ∷ (4, "ServerboundClientSettings")
                  ∷ (9, "ServerboundCustomPayload")
                  ∷ (11, "ServerboundKeepAlive")
                  ∷ [],
            )
            ∷ [],
      )
      ∷ (
        status,
        (clientbound, (0, "ClientboundStatusResponse") ∷ (1, "ClientboundPong") ∷ [])
            ∷ (serverbound, (0, "ServerboundStatusRequest") ∷ (1, "ServerboundPing") ∷ [])
            ∷ [],
      )
      ∷ [];
}
