-- ===== src/Registry/Tables/V1_21_5.antt =====
-- protocol/generated_registry.go: the tables of V1_21_5 to V1_21_5.
use gophermc.Base.{[], ◌∷◌}
use gophermc.Types.{handshaking, status, login, play, configuration, serverbound, clientbound}
use gophermc.Registry.Definitions.{Definition}

unfoldable pub definition_v1_21_5 : Definition
definition_v1_21_5 = record {
  protocol_version = 770;
  packet_ids =
      (
        configuration,
        (
          clientbound,
          ("ClientboundConfigKeepAlive", 4)
              ∷ ("ClientboundConfigPing", 5)
              ∷ ("ClientboundCookieRequest", 0)
              ∷ ("ClientboundCustomPayload", 1)
              ∷ ("ClientboundDisconnect", 2)
              ∷ ("ClientboundFeatureFlags", 12)
              ∷ ("ClientboundFinishConfiguration", 3)
              ∷ ("ClientboundRegistryData", 7)
              ∷ ("ClientboundSelectKnownPacks", 14)
              ∷ [],
        )
            ∷ (
              serverbound,
              ("ServerboundClientSettings", 0)
                  ∷ ("ServerboundConfigKeepAlive", 4)
                  ∷ ("ServerboundConfigPong", 5)
                  ∷ ("ServerboundCookieResponse", 1)
                  ∷ ("ServerboundCustomPayload", 2)
                  ∷ ("ServerboundFinishConfiguration", 3)
                  ∷ ("ServerboundSelectKnownPacks", 7)
                  ∷ [],
            )
            ∷ [],
      )
      ∷ (handshaking, (serverbound, ("ServerboundHandshake", 0) ∷ []) ∷ [])
      ∷ (
        login,
        (
          clientbound,
          ("ClientboundCookieRequest", 5)
              ∷ ("ClientboundDisconnect", 0)
              ∷ ("ClientboundLoginSuccess", 2)
              ∷ ("ClientboundSetCompression", 3)
              ∷ [],
        )
            ∷ (
              serverbound,
              ("ServerboundCookieResponse", 4)
                  ∷ ("ServerboundLoginAcknowledged", 3)
                  ∷ ("ServerboundLoginStart", 0)
                  ∷ [],
            )
            ∷ [],
      )
      ∷ (
        play,
        (
          clientbound,
          ("ClientboundCookieRequest", 21)
              ∷ ("ClientboundCustomPayload", 24)
              ∷ ("ClientboundDisconnect", 28)
              ∷ ("ClientboundJoinGame", 43)
              ∷ ("ClientboundKeepAlive", 38)
              ∷ ("ClientboundPong", 54)
              ∷ [],
        )
            ∷ (
              serverbound,
              ("ServerboundChatMessage", 7)
                  ∷ ("ServerboundClientSettings", 12)
                  ∷ ("ServerboundCookieResponse", 19)
                  ∷ ("ServerboundCustomPayload", 20)
                  ∷ ("ServerboundKeepAlive", 26)
                  ∷ [],
            )
            ∷ [],
      )
      ∷ (
        status,
        (clientbound, ("ClientboundPong", 1) ∷ ("ClientboundStatusResponse", 0) ∷ [])
            ∷ (serverbound, ("ServerboundPing", 1) ∷ ("ServerboundStatusRequest", 0) ∷ [])
            ∷ [],
      )
      ∷ [];
  packet_names =
      (
        configuration,
        (
          clientbound,
          (0, "ClientboundCookieRequest")
              ∷ (1, "ClientboundCustomPayload")
              ∷ (2, "ClientboundDisconnect")
              ∷ (3, "ClientboundFinishConfiguration")
              ∷ (4, "ClientboundConfigKeepAlive")
              ∷ (5, "ClientboundConfigPing")
              ∷ (7, "ClientboundRegistryData")
              ∷ (12, "ClientboundFeatureFlags")
              ∷ (14, "ClientboundSelectKnownPacks")
              ∷ [],
        )
            ∷ (
              serverbound,
              (0, "ServerboundClientSettings")
                  ∷ (1, "ServerboundCookieResponse")
                  ∷ (2, "ServerboundCustomPayload")
                  ∷ (3, "ServerboundFinishConfiguration")
                  ∷ (4, "ServerboundConfigKeepAlive")
                  ∷ (5, "ServerboundConfigPong")
                  ∷ (7, "ServerboundSelectKnownPacks")
                  ∷ [],
            )
            ∷ [],
      )
      ∷ (handshaking, (serverbound, (0, "ServerboundHandshake") ∷ []) ∷ [])
      ∷ (
        login,
        (
          clientbound,
          (0, "ClientboundDisconnect")
              ∷ (2, "ClientboundLoginSuccess")
              ∷ (3, "ClientboundSetCompression")
              ∷ (5, "ClientboundCookieRequest")
              ∷ [],
        )
            ∷ (
              serverbound,
              (0, "ServerboundLoginStart")
                  ∷ (3, "ServerboundLoginAcknowledged")
                  ∷ (4, "ServerboundCookieResponse")
                  ∷ [],
            )
            ∷ [],
      )
      ∷ (
        play,
        (
          clientbound,
          (21, "ClientboundCookieRequest")
              ∷ (24, "ClientboundCustomPayload")
              ∷ (28, "ClientboundDisconnect")
              ∷ (38, "ClientboundKeepAlive")
              ∷ (43, "ClientboundJoinGame")
              ∷ (54, "ClientboundPong")
              ∷ [],
        )
            ∷ (
              serverbound,
              (7, "ServerboundChatMessage")
                  ∷ (12, "ServerboundClientSettings")
                  ∷ (19, "ServerboundCookieResponse")
                  ∷ (20, "ServerboundCustomPayload")
                  ∷ (26, "ServerboundKeepAlive")
                  ∷ [],
            )
            ∷ [],
      )
      ∷ (
        status,
        (clientbound, (0, "ClientboundStatusResponse") ∷ (1, "ClientboundPong") ∷ [])
            ∷ (serverbound, (0, "ServerboundStatusRequest") ∷ (1, "ServerboundPing") ∷ [])
            ∷ [],
      )
      ∷ [];
}
