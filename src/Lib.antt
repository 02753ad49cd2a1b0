-- ===== src/Lib.antt =====
-- Legend of Stealth: a model of the game's network protocol, its server, its connecting client, and
-- the parts of the client that build a level, with the theorems on them.
--
-- Players join a server over TCP. Both sides send packets (shared/Protocol.h, shared/Protocol.cpp)
-- through sockets (shared/Socket.h, shared/Socket.cpp), which hide SDL_net. The server takes
-- connections from a listener with a thread of its own (server/ConnectionListener.h,
-- server/ConnectionListener.cpp), reads a join request, and tells the other clients
-- (server/Server.h, server/Server.cpp, server/Client.h, server/Client.cpp). A client joins through
-- a connector (client/Client.h, client/Client.cpp). The map of a level is parsed into flags and
-- loaded as bodies and shadow casters (client/Map.h, client/Map.cpp, client/MapParser.cpp,
-- client/MapLoader.cpp), its layers are drawn from buffers of vertices (client/MapLayer.cpp); lights
-- share a texture and stand in lists (client/LightSource.cpp, client/ShadowLayer.cpp), and shadow
-- casters have a shape (client/ShadowCaster.cpp) of which the layer makes the vertices of shadows. Shaders
-- are programs of OpenGL (client/Shader.h, client/Shader.cpp).
--
-- The files, by part:
--   Prelude    what every module shares: native numbers, tests, lists, and Outcome, the way a call
--              ends: it returns, reads or writes memory that is not its own, throws, or runs out of
--              fuel.
--   Protocol   Protocol.Words is PacketFactory::ReadInt, ReadUInt, ReadFloat and NetworkDword;
--              Protocol.Packet is Packet::Serialize and Packet::Deserialize; Protocol.Factory has the
--              packet classes and PacketFactory::ReadPacket. RoundTrip, Bounds, Dispatch and Delivery
--              have the proofs. A packet's members lie at addresses, as words of 32 bits.
--   Net        the calls of SDL_net and of the allocator, a parameter of the model. Its one law is
--              that a new block has the length that was asked for.
--   Socket     Socket.State has the members and the queries, Socket.Open the constructors, Init and
--              the destructor, Socket.Transfer SendPacket and GetData, Socket.Receive HasActivity and
--              GetPacket. Stream, Ending, Parsing, Delivery and Fresh have the proofs.
--   Server     Server.Api is the interface of sockets that the server and the connector use, and the
--              program's own sockets as an instance. Server.Client is server::Client; Server.State
--              has the server's state, KickClient and Broadcast; Server.Loop the other handlers and
--              ServerLoop; Server.Listening is HandleNewTCPConnections and ServerLoop while the
--              thread of the listener adds connections. Server.Lobby states a contract for the
--              whole, and Server.Main is the program (server/Main.cpp). Kick, Informed, Broadcast,
--              Thinning, Shrinking, Invariant, Safety, Flush, Flushed, Teams, Joining, Draining,
--              Serving, Nobody and Refinement have the proofs.
--   Listener   ConnectionListener; Listener.Interleaving has its thread and the server's as steps,
--              Listener.Service the proof on the order in which connections are taken.
--   Connector  client::ServerConnector; Connect, Ownership and Stranded have the proofs.
--   Messages   the packets that the server and the players send, as messages.
--   Shader     Shader.Loading has the constructor, LoadShader, CompileShader, LinkProgram and the
--              destructor of Shader, Shader.Uniforms the locations of uniforms and the setters, Shader
--              itself GetShaderSource. Lines, Handles, Objects, Leaks, Locations and Setting have the proofs.
--   Level      Map::TileTemplate; Level.Walls is MapParser::ParseWallLayer, Level.Loading is MapLoader,
--              Level.Drawing the vertices of MapLayer, Level.Layers MapParser::ParseDrawableLayer,
--              Level.Maps MapParser::ParseMap, Level.Lights LightTexture and the textures of
--              LightSource, Level.Casters the lists of ShadowLayer, Level.Shapes ShadowCaster,
--              Level.Shadows the geometry of ShadowLayer, Level.Opening the constructor of MapParser,
--              Level.LightLayer MapParser::ParseLightLayer with GameLayer::AddLight
--              (client/GameLayer.cpp) and the light of Player (client/Player.cpp). Level.Rendering is
--              ShadowLayer::Render and LightSource::RenderLight, as the calls of OpenGL that they make,
--              Level.Stencil what these do to one pixel by the documentation, Level.Fan the arrays
--              that LightTexture draws into the texture of lights, and Level.Owning the constructor and
--              the destructor of ShadowLayer. Level.LayerRender is MapLayer::Render. Order, Grid, Parsed,
--              Bodies, Drawn, Layered, Sharing, Removal, Boxes, ShadowShapes, Shown, Quads, Casting,
--              Lit, PlayerLight, Visible, Rendered, FanShape and Owned have the proofs.
--   Examples   the theorems at concrete inputs.
--
-- State is passed on explicitly: an operation takes the object and the world and returns both.
-- Objects in a list are told apart by their address. SendPacket(buf, len) deletes the buffer: where that
-- is the storage of a vector, which is not of new[] and which the vector frees, the call is a fault.
--
-- Bounds and fuel. Integers are natural numbers; a length that may be negative is an integer with a
-- sign, and the counter of player ids wraps at 2 ^ 32. The loop of GetData has two rounds: a read
-- beyond the second would need more than the memory that the block then has, so it faults or ends.
-- The loop of GetPacket has any number of rounds, as a parameter; for a known packet none is enough.
-- The loops over the clients have as many rounds as there are clients, since each leaves one client
-- fewer to come; the proofs count this. The loops of ConnectToServer have any number of rounds, and
-- two for each value of a number that falls with the clock are enough. The loop of
-- HandleNewTCPConnections ends when it has more rounds than connections wait and arrive. The loop of
-- GetShaderSource has two rounds more than the file has bytes, as each reads one at least until the
-- end.
--
-- Not modelled: logging, OpenGL, Box2D, TmxParser, the engine trutle, arithmetic on floats (their
-- operations are parameters), the calls that draw the shared texture of lights, the movement of the
-- player and of the camera, which act on objects of trutle and Box2D, the main function of the
-- client, which starts trutle, and Google
-- Test, of which the repository has a copy.
mod Prelude
pub mod Protocol
pub mod Net
pub mod Socket
pub mod Server
pub mod Listener
pub mod Connector
pub mod Messages
pub mod Shader
pub mod Level
mod Examples
