-- ===== src/Lib.antt =====
-- The web client of Dots and Boxes (TypeScript, web/src), modelled function by function.
--
-- Parts, and the files that model them:
--   Prelude    numbers, lists, dictionaries and text that the parts share. Integers are `ℤ` over the
--              native ℕ; a JavaScript object with number keys is an association list, `Dict`.
--   Board      the grid of boxes (`Box` of web/src/types/websocket.ts) and the optimistic update of
--              web/src/lib/optimisticGameGrid.ts: `isEdgeFree`, `applyClaimEdge`. Board/Lines is the
--              abstract board, in which two boxes share the line between them; `IsBoard` says that a
--              grid is one, and Board/Refinement compares the code with it.
--   Replay     web/src/routes/_authenticated/replay/$gameID.tsx: `buildReplayStates`, from the events of
--              web/src/api/fetchGames.ts, and in Replay/Playback the controls, keys and interval.
--   Messages   the records and the union of web/src/types/websocket.ts and web/src/types/lobby.ts.
--   Game       web/src/routes/game/$gameID.tsx: the end of the game, players and colours, the timers
--              (Game/Timer, Game/Clock), and the click that makes a move (Game/Move).
--   Socket     web/src/WebSocketContext.tsx as a state machine: the runs of the effect, the sockets and
--              timeouts that the browser holds, subscribers and `send`.
--   Canvas     web/src/pixi/renderBoard.ts: the colours, the shapes, the edges with their taps, and
--              `rebuildBoardContent` as the list of what it draws. Lengths are in hundredths of a pixel.
--   Lobby      the helpers of the lobby: web/src/pixi/mainMenu/uniquePlayerNames.ts (Lobby/Names),
--              web/src/lib/lobbyDisplay.ts (Lobby/Display), web/src/api/lobby.ts (Lobby/Requests), and
--              web/src/stores/gameStore.ts with web/src/hooks/useGameWebSocketBridge.ts (Lobby/Store).
--   LobbyPage  web/src/routes/_authenticated/lobby/$lobbyID.tsx: the refs, flags, effects and handlers of
--              the page of a lobby as a state machine, and what it renders (LobbyPage/View).
--   Play       web/src/routes/_authenticated/play.tsx with web/src/components/Lobby.tsx: the cached list
--              of lobbies (Play/Lobbies) against one of abstract lobbies, by the names of their fields
--              (Play/Lobbies/Refinement), the dock, the unread count, what the
--              browser's storages keep, and the page of the name (Play/ChooseName,
--              web/src/routes/_authenticated/choose-name.tsx).
--   CreateLobby  the form for a new lobby: web/src/pixi/mainMenu/createLobbyDomForm.ts, its handlers in
--              web/src/pixi/mainMenu/MainMenuScene.ts, and web/src/lib/lobbyCreateForm.ts; the
--              slots of the players (CreateLobby/Slots, web/src/pixi/mainMenu/PlayerSlot.ts).
--   Chat       web/src/components/ChatBox.tsx, on the client of Socket.
--   BoardView  web/src/components/Grid.tsx: zoom, pan and reset of the board's view, over JavaScript's
--              numbers, NaN among them, as a parameter with the laws that the code needs of them.
--   Origin     the addresses of the API and of the socket: web/src/lib/apiOrigin.ts; the token that requests
--              carry (Origin/Csrf, web/src/lib/csrf.ts with the interceptor of web/src/main.tsx).
--   MenuCanvas the mount of the menu's canvas, web/src/components/GameContainer.tsx with
--              web/src/pixi/SceneManager.ts, as a state machine over the closures of its runs; the effects
--              that pass props to its scene, and open the form for a new lobby (MenuCanvas/Props, on the
--              slots of CreateLobby/Slots).
--   Splash     web/src/components/DeployLoadingOverlay.tsx: the runs of its effect with their timeouts, and
--              the loop that types its console (Splash/Console).
--   GameView   what web/src/routes/game/$gameID.tsx and web/src/components/GameWinOverlay.tsx render, the
--              page's presence (GameView/Presence) and the request for its timer (GameView/Hydration,
--              web/src/api/fetchGameTimer.ts).
--   Auth       the user's identity: web/src/api/fetchUser.ts, and the logout of web/src/AuthContext.tsx,
--              with the JSON codec as a parameter; the guards of the routes and their redirects
--              (Auth/Routes: index.tsx, register.tsx, login.tsx, join.$lobbyID.tsx and _authenticated.tsx of
--              web/src/routes).
--   SignIn     the form of the login page: web/src/components/AuthForm.tsx, on Auth.
--   Invites    invitations between players, web/src/components/PlayerLobby.tsx, on the client of Socket.
-- The game page and the replay page both stand on Board; the game page takes the messages of Socket
-- and writes them into the query's cache, over which a click puts its optimistic grid. Canvas draws the
-- grid, and a tap on an edge calls the game page's `handleClick` with its move (Canvas/Moves). Chat
-- sends by the client of Socket; LobbyPage and Play read the session of Lobby/Display.
--
-- Conventions. A read of `undefined` that throws a `TypeError` is the value `type_error` of `Result`.
-- A copy that the source makes, so that a later write does not reach it, is the value itself. An
-- asynchronous function is one definition up to its `await` and one after it, with any events in
-- between; React's effects are events too. Loops run over lists. Three have fuel: the decimal digits
-- of `n` with `n + 1` rounds, the wood grain with the distance to its limit, and the redirects that
-- the router follows, whose number Auth/Routes/Ends counts; the console of the splash counts the
-- 32 events of a frame. What server and browser do are arguments or events.
-- Numbers that the server sends as ids, turns and sizes are natural; the negative ids of bots stand as
-- numbers that no user has, for ids are only compared and looked up (Messages/Ids); rows, columns and times are
-- integers, the times of the splash whole milliseconds.
--
-- Not modelled: the style of what is rendered, what PixiJS draws in the scenes of the menu,
-- sounds, the other pages, the query library and the router, which are events, and the Go
-- server, whose messages the client takes as they come.
pub mod Prelude
pub mod Board
pub mod Replay
pub mod Messages
pub mod Game
pub mod Socket
pub mod Canvas
pub mod Lobby
pub mod LobbyPage
pub mod Play
pub mod Chat
pub mod BoardView
pub mod GameView
pub mod CreateLobby
pub mod Origin
pub mod Splash
pub mod MenuCanvas
pub mod Auth
pub mod SignIn
pub mod Invites
