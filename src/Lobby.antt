-- ===== src/Lobby.antt =====
-- The helpers of the lobby: display names (web/src/pixi/mainMenu/uniquePlayerNames.ts,
-- web/src/lib/lobbyDisplay.ts), the requests and their errors (web/src/api/lobby.ts), and the players
-- in the store (web/src/stores/gameStore.ts, web/src/hooks/useGameWebSocketBridge.ts).
pub mod Names
pub mod Display
pub mod Requests
pub mod Store
mod Tests
