-- ===== src/Registry/Tables/V1_20_3.antt =====
-- protocol/generated_registry.go: the tables of V1_20_3 to V1_20_3.
use gophermc.Base.{[], ◌∷◌}
use gophermc.Types.{handshaking, status, login, play, configuration, serverbound, clientbound}
use gophermc.Registry.Definitions.{Definition}

unfoldable pub definition_v1_20_3 : Definition
definition_v1_20_3 = record {
  protocol_version = 765;
  packet_ids =
      (
        configuration,
        (
          clientbound,
          ("ClientboundConfigKeepAlive", 3)
              ∷ ("ClientboundConfigPing", 4)
              ∷ ("ClientboundCustomPayload", 0)
              ∷ ("ClientboundDisconnect", 1)
              ∷ ("ClientboundFeatureFlags", 8)
              ∷ ("ClientboundFinishConfiguration", 2)
              ∷ ("ClientboundRegistryData", 5)
              ∷ [],
        )
            ∷ (
              serverbound,
              ("ServerboundClientSettings", 0)
                  ∷ ("ServerboundConfigKeepAlive", 3)
                  ∷ ("ServerboundConfigPong", 4)
                  ∷ ("ServerboundCustomPayload", 1)
                  ∷ ("ServerboundFinishConfiguration", 2)
                  ∷ [],
            )
            ∷ [],
      )
      ∷ (handshaking, (serverbound, ("ServerboundHandshake", 0) ∷ []) ∷ [])
      ∷ (
        login,
        (
          clientbound,
          ("ClientboundDisconnect", 0)
              ∷ ("ClientboundLoginSuccess", 2)
              ∷ ("ClientboundSetCompression", 3)
              ∷ [],
        )
            ∷ (serverbound, ("ServerboundLoginAcknowledged", 3) ∷ ("ServerboundLoginStart", 0) ∷ [])
            ∷ [],
      )
      ∷ (
        play,
        (
          clientbound,
          ("ClientboundCustomPayload", 24)
              ∷ ("ClientboundDisconnect", 27)
              ∷ ("ClientboundJoinGame", 41)
              ∷ ("ClientboundKeepAlive", 36)
              ∷ ("ClientboundPong", 51)
              ∷ [],
        )
            ∷ (
              serverbound,
              ("ServerboundChatMessage", 5)
                  ∷ ("ServerboundClientSettings", 9)
                  ∷ ("ServerboundCustomPayload", 16)
                  ∷ ("ServerboundKeepAlive", 21)
                  ∷ [],
            )
            ∷ [],
      )
      ∷ (
        status,
        (clientbound, ("ClientboundPong", 1) ∷ ("ClientboundStatusResponse", 0) ∷ [])
            ∷ (serverbound, ("ServerboundPing", 1) ∷ ("ServerboundStatusRequest", 0) ∷ [])
            ∷ [],
      )
      ∷ [];
  packet_names =
      (
        configuration,
        (
          clientbound,
          (0, "ClientboundCustomPayload")
              ∷ (1, "ClientboundDisconnect")
              ∷ (2, "ClientboundFinishConfiguration")
              ∷ (3, "ClientboundConfigKeepAlive")
              ∷ (4, "ClientboundConfigPing")
              ∷ (5, "ClientboundRegistryData")
              ∷ (8, "ClientboundFeatureFlags")
              ∷ [],
        )
            ∷ (
              serverbound,
              (0, "ServerboundClientSettings")
                  ∷ (1, "ServerboundCustomPayload")
                  ∷ (2, "ServerboundFinishConfiguration")
                  ∷ (3, "ServerboundConfigKeepAlive")
                  ∷ (4, "ServerboundConfigPong")
                  ∷ [],
            )
            ∷ [],
      )
      ∷ (handshaking, (serverbound, (0, "ServerboundHandshake") ∷ []) ∷ [])
      ∷ (
        login,
        (
          clientbound,
          (0, "ClientboundDisconnect")
              ∷ (2, "ClientboundLoginSuccess")
              ∷ (3, "ClientboundSetCompression")
              ∷ [],
        )
            ∷ (serverbound, (0, "ServerboundLoginStart") ∷ (3, "ServerboundLoginAcknowledged") ∷ [])
            ∷ [],
      )
      ∷ (
        play,
        (
          clientbound,
          (24, "ClientboundCustomPayload")
              ∷ (27, "ClientboundDisconnect")
              ∷ (36, "ClientboundKeepAlive")
              ∷ (41, "ClientboundJoinGame")
              ∷ (51, "ClientboundPong")
              ∷ [],
        )
            ∷ (
              serverbound,
              (5, "ServerboundChatMessage")
                  ∷ (9, "ServerboundClientSettings")
                  ∷ (16, "ServerboundCustomPayload")
                  ∷ (21, "ServerboundKeepAlive")
                  ∷ [],
            )
            ∷ [],
      )
      ∷ (
        status,
        (clientbound, (0, "ClientboundStatusResponse") ∷ (1, "ClientboundPong") ∷ [])
            ∷ (serverbound, (0, "ServerboundStatusRequest") ∷ (1, "ServerboundPing") ∷ [])
            ∷ [],
      )
      ∷ [];
}
