-- ===== src/Registry/Tables/V1_19_4To1_20.antt =====
-- protocol/generated_registry.go: the tables of V1_19_4 to V1_20.
use gophermc.Base.{[], ◌∷◌}
use gophermc.Types.{handshaking, status, login, play, serverbound, clientbound}
use gophermc.Registry.Definitions.{Definition}

unfoldable pub definition_v1_19_4 : Definition
definition_v1_19_4 = record {
  protocol_version = 762;
  packet_ids =
      (handshaking, (serverbound, ("ServerboundHandshake", 0) ∷ []) ∷ [])
      ∷ (
        login,
        (
          clientbound,
          ("ClientboundDisconnect", 0)
              ∷ ("ClientboundLoginSuccess", 2)
              ∷ ("ClientboundSetCompression", 3)
              ∷ [],
        )
            ∷ (serverbound, ("ServerboundLoginStart", 0) ∷ [])
            ∷ [],
      )
      ∷ (
        play,
        (
          clientbound,
          ("ClientboundCustomPayload", 23)
              ∷ ("ClientboundDisconnect", 26)
              ∷ ("ClientboundFeatureFlags", 107)
              ∷ ("ClientboundJoinGame", 40)
              ∷ ("ClientboundKeepAlive", 35)
              ∷ ("ClientboundPong", 50)
              ∷ [],
        )
            ∷ (
              serverbound,
              ("ServerboundChatMessage", 5)
                  ∷ ("ServerboundClientSettings", 8)
                  ∷ ("ServerboundCustomPayload", 13)
                  ∷ ("ServerboundKeepAlive", 18)
                  ∷ [],
            )
            ∷ [],
      )
      ∷ (
        status,
        (clientbound, ("ClientboundPong", 1) ∷ ("ClientboundStatusResponse", 0) ∷ [])
            ∷ (serverbound, ("ServerboundPing", 1) ∷ ("ServerboundStatusRequest", 0) ∷ [])
            ∷ [],
      )
      ∷ [];
  packet_names =
      (handshaking, (serverbound, (0, "ServerboundHandshake") ∷ []) ∷ [])
      ∷ (
        login,
        (
          clientbound,
          (0, "ClientboundDisconnect")
              ∷ (2, "ClientboundLoginSuccess")
              ∷ (3, "ClientboundSetCompression")
              ∷ [],
        )
            ∷ (serverbound, (0, "ServerboundLoginStart") ∷ [])
            ∷ [],
      )
      ∷ (
        play,
        (
          clientbound,
          (23, "ClientboundCustomPayload")
              ∷ (26, "ClientboundDisconnect")
              ∷ (35, "ClientboundKeepAlive")
              ∷ (40, "ClientboundJoinGame")
              ∷ (50, "ClientboundPong")
              ∷ (107, "ClientboundFeatureFlags")
              ∷ [],
        )
            ∷ (
              serverbound,
              (5, "ServerboundChatMessage")
                  ∷ (8, "ServerboundClientSettings")
                  ∷ (13, "ServerboundCustomPayload")
                  ∷ (18, "ServerboundKeepAlive")
                  ∷ [],
            )
            ∷ [],
      )
      ∷ (
        status,
        (clientbound, (0, "ClientboundStatusResponse") ∷ (1, "ClientboundPong") ∷ [])
            ∷ (serverbound, (0, "ServerboundStatusRequest") ∷ (1, "ServerboundPing") ∷ [])
            ∷ [],
      )
      ∷ [];
}

unfoldable pub definition_v1_20 : Definition
definition_v1_20 = record {
  protocol_version = 763;
  packet_ids =
      (handshaking, (serverbound, ("ServerboundHandshake", 0) ∷ []) ∷ [])
      ∷ (
        login,
        (
          clientbound,
          ("ClientboundDisconnect", 0)
              ∷ ("ClientboundLoginSuccess", 2)
              ∷ ("ClientboundSetCompression", 3)
              ∷ [],
        )
            ∷ (serverbound, ("ServerboundLoginStart", 0) ∷ [])
            ∷ [],
      )
      ∷ (
        play,
        (
          clientbound,
          ("ClientboundCustomPayload", 23)
              ∷ ("ClientboundDisconnect", 26)
              ∷ ("ClientboundFeatureFlags", 107)
              ∷ ("ClientboundJoinGame", 40)
              ∷ ("ClientboundKeepAlive", 35)
              ∷ ("ClientboundPong", 50)
              ∷ [],
        )
            ∷ (
              serverbound,
              ("ServerboundChatMessage", 5)
                  ∷ ("ServerboundClientSettings", 8)
                  ∷ ("ServerboundCustomPayload", 13)
                  ∷ ("ServerboundKeepAlive", 18)
                  ∷ [],
            )
            ∷ [],
      )
      ∷ (
        status,
        (clientbound, ("ClientboundPong", 1) ∷ ("ClientboundStatusResponse", 0) ∷ [])
            ∷ (serverbound, ("ServerboundPing", 1) ∷ ("ServerboundStatusRequest", 0) ∷ [])
            ∷ [],
      )
      ∷ [];
  packet_names =
      (handshaking, (serverbound, (0, "ServerboundHandshake") ∷ []) ∷ [])
      ∷ (
        login,
        (
          clientbound,
          (0, "ClientboundDisconnect")
              ∷ (2, "ClientboundLoginSuccess")
              ∷ (3, "ClientboundSetCompression")
              ∷ [],
        )
            ∷ (serverbound, (0, "ServerboundLoginStart") ∷ [])
            ∷ [],
      )
      ∷ (
        play,
        (
          clientbound,
          (23, "ClientboundCustomPayload")
              ∷ (26, "ClientboundDisconnect")
              ∷ (35, "ClientboundKeepAlive")
              ∷ (40, "ClientboundJoinGame")
              ∷ (50, "ClientboundPong")
              ∷ (107, "ClientboundFeatureFlags")
              ∷ [],
        )
            ∷ (
              serverbound,
              (5, "ServerboundChatMessage")
                  ∷ (8, "ServerboundClientSettings")
                  ∷ (13, "ServerboundCustomPayload")
                  ∷ (18, "ServerboundKeepAlive")
                  ∷ [],
            )
            ∷ [],
      )
      ∷ (
        status,
        (clientbound, (0, "ClientboundStatusResponse") ∷ (1, "ClientboundPong") ∷ [])
            ∷ (serverbound, (0, "ServerboundStatusRequest") ∷ (1, "ServerboundPing") ∷ [])
            ∷ [],
      )
      ∷ [];
}
