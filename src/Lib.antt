-- ===== src/Lib.antt =====
-- Pure Checkers: the rules engine and the state machines of the game server.
--
-- The program is a web game of checkers. shared/game.js is the engine that client and server share:
-- the class CheckersGame keeps the board, the side to move, a capture chain in progress, the clocks
-- and what the draw rules need, and ColonelBot chooses moves for it.
--
-- Base: names passed on from the libraries, Boolean tests, lists, membership, integers (Base/Int).
-- Board: cells, squares and directions of shared/game.js (at, _directions, reset); a coordinate is a
--   natural number, and a number of the program that is negative or no integer is off the board.
--   Board/Cells has the laws of reads after writes.
-- Moves: the moves of one piece (getCaptures, _manCaptures, _queenCaptures, getSimpleMoves,
--   _manMoves, _queenMoves). The while loops along a ray take eight rounds of fuel from distance 1,
--   which is enough since no eight steps stay on the board (Moves/Rays). Moves/Captures and
--   Moves/Simple compare the lists with the rules.
-- Game: CheckersGame. Game/State has the fields, the initial state and the text of a position
--   (_boardHash), Game/Listing the lists of legal moves, Game the methods makeMove, _checkGameOver,
--   _checkForcedDraw, tickTime and countPieces. A method that changes the object returns the new
--   record, and `none` is the `null` of a refused move, which leaves the object as it was. Game/Rules,
--   Game/Legal and Game/Turns say which moves are legal and played, Game/Effect, Game/Count and
--   Game/Material what a move does to the board, Game/Invariant, Game/Progress and Game/Reach what
--   holds of every game that the methods reach. Times are natural numbers of a fixed fraction of a
--   second, so the rounding of floats is not modelled.
-- Bot: evaluate of CheckersGame in units of 1/20, and of ColonelBot the loop _finishChain, with a
--   round of fuel for each piece that can still be taken (Bot/Chain, Bot/Ended). On a game that is over
--   within a chain the source's loop never ends: finish_chain is `none` there, and so is chooseMove when it
--   would not return. Bot/Pruning has one level of
--   alpha-beta over any totally ordered scores, Bot/Search _minimax and chooseMove, whose recursion is
--   on the depth, Bot/Value minimax without pruning, and Bot/Choice the moves that chooseMove draws
--   from, and Bot/Draw that it finds one; the random draw is a parameter. A clone is the record itself.
-- BotSearch: shared/botSearch.js, by which the bots play. The number `left` is `remaining` and one more;
--   each ply takes a round of fuel, and since a ply passes the turn or takes a piece the number of turns
--   left and 130 more are enough (BotSearch/Plies, BotSearch/Stops). The clock is a parameter, which says
--   of each node whether it is late, and so is the random choice. BotSearch/Plain is the search without a
--   window, BotSearch/Value and BotSearch/Exact compare the scores with it, and BotSearch/Choice is about
--   the move that is chosen; BotSearch/Grade has the grade of a played one.
-- Economy: server/services/coins.js and server/services/vault.js. The tables of users, coin transactions,
--   pending payouts and the vault with its log are one state, of which a transaction takes all or, when it
--   throws, nothing; account locks are left out. Economy/Milestones has
--   checkMilestones and Economy/Pending claimPendingPayout. Economy/Conserved counts the coins, Economy/Runs is about
--   what the vault pays, Economy/Paid, Economy/StaysPaid and Economy/Claims about payouts that were
--   paid, and Economy/Payout about the tax on a wager. Amounts
--   are rounded to the nearest coin, as the floats of the source are at these rates.
-- GameHistory: describeHistory of shared/gameHistory.js. A turn of its log is changed in place, so the model
--   changes the last of the log. GameHistory/Timeless says that a move does not depend on the clocks,
--   GameHistory/Recorded what it adds to the history, GameHistory/Log how the moves are grouped, and
--   GameHistory/Replayed that a history can be replayed.
-- Notation: squareNumber and squareCoords of shared/notation.js, and the parts of a text of moveNotation,
--   which stand in GameHistory.
-- Recovery: readyRecoveryPlayers and recoveryDecision of server/domain/gameRecovery.js.
-- Sessions: server/domain/sessions.js, whose map of sessions, timers and events to callbacks are one
--   state that each exported function takes and returns; a wake of a timer is an operation of its
--   own. Sessions/Data has the records, Sessions/Laws and Sessions/Timers what an operation keeps, and
--   Sessions/Reach what holds of every state that the operations and wakes reach, in any order, and
--   Sessions/Phases is about the changes of phase.
-- Rooms: server/domain/roomRules.js. A function that changes the room returns the new one.
--   Rooms/Departure and Rooms/Closing are about removeMember and canStartRoom, Rooms/Notices about
--   roomDepartureNotices.
-- QuickPlay: the class QuickPlayPool of server/services/quickPlay.js. QuickPlay/Passes is a rule for
--   the three passes of tryMatch, QuickPlay/Total and QuickPlay/Claims what the pairs are,
--   QuickPlay/Queue the order of the queue, QuickPlay/Reach what holds of every pool. An entry's
--   identity is its order number.
-- WorkerPool: the class WorkerPool of shared/workerPool.js. Promises are the list of settled jobs, and
--   whether a worker starts and takes a message are parameters. drain takes a round of fuel for each
--   queued job, which is enough since each round shortens the queue (WorkerPool/Drain).
--   WorkerPool/Ready, WorkerPool/Close and WorkerPool/Reach say what holds between the calls.
-- GameRoom: the class GameRoom of server/domain/games.js and the commands game:move, game:resign,
--   game:draw-offer, game:draw-response, game:reveal-done, game:recovery-ready, the timers and the bot's
--   move. The functions that a commit is given become functions from a draft to a Mutation, and a step
--   is a commit of one of them to the draft last committed. The checks of the session, the database and
--   its retries are left out; player numbers are positive keys. GameRoom/State has the
--   draft and its commit, GameRoom/Opening the reveal and the recovery. GameRoom/Kept, GameRoom/Keeps
--   and GameRoom/Reach have what holds of every draft, GameRoom/Final what a finished game keeps,
--   GameRoom/Turns who may move, and GameRoom/Draws how a draw is agreed.
-- Puzzle: validatePuzzleSolve of shared/puzzleProgress.js. Puzzle/Solve says when it accepts a solution.
-- PuzzleSearch: shared/puzzleSearch.js. PuzzleSearch/Position has its positions, clones and the mirror,
--   PuzzleSearch/Turns the whole turns of fullMoves, with a round of fuel for each hop of a chain, 65 in
--   all, since each hop takes a piece and a board has 64 squares, PuzzleSearch/Negamax negamax with its
--   window, quiescence and budget, by recursion on the plies left, and PuzzleSearch/Deepening search and
--   scoreMoves. A search that its budget stops is `none`. PuzzleSearch/Spot and PuzzleSearch/Hops put
--   a move of the search beside that of the engine, PuzzleSearch/Replay plays the listed turns on the engine
--   itself, and PuzzleSearch/Complete finds the engine's turns in the list. PuzzleSearch/Plain is negamax
--   without a window, a budget or an order of moves, and PuzzleSearch/Value and PuzzleSearch/Exact compare
--   the search with it. PuzzleSearch/Budget counts nodes, PuzzleSearch/Scoring is about scoreMoves, and
--   PuzzleSearch/Mirror about the mirrored position.
-- Results (the module): server/domain/resultState.js. Results/State has the records and
--   normalizeResultState, Results the transitions, Results/Withdraw and Results/Expiry what a withdrawal
--   and the deadline leave, Results/Consent, Results/Viewers and Results/Cancel when a rematch starts,
--   who views a result and what a cancelled rematch leaves, for which cancel_rematch puts together the
--   two transitions that cancelResultRematch and restoreAbortedResult of server/services/resultRecords.js
--   make. Every error is `none`.
-- RoomState: server/domain/roomState.js. RoomState/Data has the records and the equality of their parts,
--   RoomState/Normal normalizeRoomState, RoomState/Surroundings what a transition is judged by, and
--   RoomState assertRoomTransition, which is the Boolean `allows`, roomAfterAbortedStart and roomClaims.
--   RoomState/Allowed and RoomState/History are about accepted transitions, and RoomState/Stored about
--   what is stored. Fields of a wrong type are left out.
-- Tests: runs on small positions and each result at a concrete input.
--
-- Not modelled: the sockets, routes and pages, the database and its transactions, the
-- choice and publication of puzzles, the messages of the worker threads, and log output.
pub mod Base
pub mod Board
pub mod Moves
pub mod Game
pub mod Bot
pub mod BotSearch
pub mod Economy
pub mod GameHistory
pub mod GameRoom
pub mod Notation
pub mod QuickPlay
pub mod Puzzle
pub mod PuzzleSearch
pub mod Recovery
pub mod Results
pub mod RoomState
pub mod Rooms
pub mod Sessions
pub mod WorkerPool
mod Tests
