-- ===== src/Registry/Tables/V1_7To1_8.antt =====
-- protocol/generated_registry.go: the tables of V1_7 to V1_8.
use gophermc.Base.{[], ◌∷◌}
use gophermc.Types.{handshaking, status, login, play, serverbound, clientbound}
use gophermc.Registry.Definitions.{Definition}

unfoldable pub definition_v1_7 : Definition
definition_v1_7 = record {
  protocol_version = 3;
  packet_ids =
      (handshaking, (serverbound, ("ServerboundHandshake", 0) ∷ []) ∷ [])
      ∷ (
        login,
        (clientbound, ("ClientboundDisconnect", 0) ∷ ("ClientboundLoginSuccess", 2) ∷ [])
            ∷ (serverbound, ("ServerboundLoginStart", 0) ∷ [])
            ∷ [],
      )
      ∷ (
        play,
        (
          clientbound,
          ("ClientboundCustomPayload", 63)
              ∷ ("ClientboundDisconnect", 64)
              ∷ ("ClientboundJoinGame", 1)
              ∷ ("ClientboundKeepAlive", 0)
              ∷ ("ServerboundChatMessage", 2)
              ∷ [],
        )
            ∷ (
              serverbound,
              ("ServerboundChatMessage", 1)
                  ∷ ("ServerboundClientSettings", 21)
                  ∷ ("ServerboundCustomPayload", 23)
                  ∷ ("ServerboundKeepAlive", 0)
                  ∷ [],
            )
            ∷ [],
      )
      ∷ (
        status,
        (clientbound, ("ClientboundPong", 1) ∷ ("ClientboundStatusResponse", 0) ∷ [])
            ∷ (serverbound, ("ServerboundPing", 1) ∷ ("ServerboundStatusRequest", 0) ∷ [])
            ∷ [],
      )
      ∷ [];
  packet_names =
      (handshaking, (serverbound, (0, "ServerboundHandshake") ∷ []) ∷ [])
      ∷ (
        login,
        (clientbound, (0, "ClientboundDisconnect") ∷ (2, "ClientboundLoginSuccess") ∷ [])
            ∷ (serverbound, (0, "ServerboundLoginStart") ∷ [])
            ∷ [],
      )
      ∷ (
        play,
        (
          clientbound,
          (0, "ClientboundKeepAlive")
              ∷ (1, "ClientboundJoinGame")
              ∷ (2, "ServerboundChatMessage")
              ∷ (63, "ClientboundCustomPayload")
              ∷ (64, "ClientboundDisconnect")
              ∷ [],
        )
            ∷ (
              serverbound,
              (0, "ServerboundKeepAlive")
                  ∷ (1, "ServerboundChatMessage")
                  ∷ (21, "ServerboundClientSettings")
                  ∷ (23, "ServerboundCustomPayload")
                  ∷ [],
            )
            ∷ [],
      )
      ∷ (
        status,
        (clientbound, (0, "ClientboundStatusResponse") ∷ (1, "ClientboundPong") ∷ [])
            ∷ (serverbound, (0, "ServerboundStatusRequest") ∷ (1, "ServerboundPing") ∷ [])
            ∷ [],
      )
      ∷ [];
}

unfoldable pub definition_v1_8 : Definition
definition_v1_8 = record {
  protocol_version = 47;
  packet_ids =
      (handshaking, (serverbound, ("ServerboundHandshake", 0) ∷ []) ∷ [])
      ∷ (
        login,
        (
          clientbound,
          ("ClientboundDisconnect", 0)
              ∷ ("ClientboundLoginSuccess", 2)
              ∷ ("ClientboundSetCompression", 3)
              ∷ [],
        )
            ∷ (serverbound, ("ServerboundLoginStart", 0) ∷ [])
            ∷ [],
      )
      ∷ (
        play,
        (
          clientbound,
          ("ClientboundCustomPayload", 63)
              ∷ ("ClientboundDisconnect", 64)
              ∷ ("ClientboundJoinGame", 1)
              ∷ ("ClientboundKeepAlive", 0)
              ∷ ("ServerboundChatMessage", 2)
              ∷ [],
        )
            ∷ (
              serverbound,
              ("ServerboundChatMessage", 1)
                  ∷ ("ServerboundClientSettings", 21)
                  ∷ ("ServerboundCustomPayload", 23)
                  ∷ ("ServerboundKeepAlive", 0)
                  ∷ [],
            )
            ∷ [],
      )
      ∷ (
        status,
        (clientbound, ("ClientboundPong", 1) ∷ ("ClientboundStatusResponse", 0) ∷ [])
            ∷ (serverbound, ("ServerboundPing", 1) ∷ ("ServerboundStatusRequest", 0) ∷ [])
            ∷ [],
      )
      ∷ [];
  packet_names =
      (handshaking, (serverbound, (0, "ServerboundHandshake") ∷ []) ∷ [])
      ∷ (
        login,
        (
          clientbound,
          (0, "ClientboundDisconnect")
              ∷ (2, "ClientboundLoginSuccess")
              ∷ (3, "ClientboundSetCompression")
              ∷ [],
        )
            ∷ (serverbound, (0, "ServerboundLoginStart") ∷ [])
            ∷ [],
      )
      ∷ (
        play,
        (
          clientbound,
          (0, "ClientboundKeepAlive")
              ∷ (1, "ClientboundJoinGame")
              ∷ (2, "ServerboundChatMessage")
              ∷ (63, "ClientboundCustomPayload")
              ∷ (64, "ClientboundDisconnect")
              ∷ [],
        )
            ∷ (
              serverbound,
              (0, "ServerboundKeepAlive")
                  ∷ (1, "ServerboundChatMessage")
                  ∷ (21, "ServerboundClientSettings")
                  ∷ (23, "ServerboundCustomPayload")
                  ∷ [],
            )
            ∷ [],
      )
      ∷ (
        status,
        (clientbound, (0, "ClientboundStatusResponse") ∷ (1, "ClientboundPong") ∷ [])
            ∷ (serverbound, (0, "ServerboundStatusRequest") ∷ (1, "ServerboundPing") ∷ [])
            ∷ [],
      )
      ∷ [];
}
